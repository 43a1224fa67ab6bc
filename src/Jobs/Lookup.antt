-- ===== src/Jobs/Lookup.antt =====
-- jobs.c findjob, find_finished_job and get_job: what a search returns.
use task_spooler_plus.Base.{
  ℕ, ℤ, ◌==ℤ◌, ==ℤ_iff, ◌≡◌, inl, inr, List, [], ◌∷◌, some, Bool-cases, Option-cases, get_elem?,
  arith,
}
use task_spooler_plus.State.{Job, Server}
use task_spooler_plus.Jobs.{find_idx, findjob}

-- A search that succeeds returns a place that holds a job of that id.
pub find_idx-get :
    (ps : List Job) (id : ℤ) (i : ℕ)
    → find_idx ps id ≡ some i
    → (p : Job) × (get_elem? ps i ≡ some p) × (p.jobid ≡ id)
unfolding find_idx
find_idx-get [] id i h = cc
find_idx-get (p ∷ ps) id i h = elim (Bool-cases (p.jobid ==ℤ id)) [
  | inl e ↦ (p, ground arith, (==ℤ_iff p.jobid id).0 e)
  | inr e ↦ elim (Option-cases (find_idx ps id)) [
    | inl n ↦ absurd (ground arith)
    | inr (j, f) ↦ let (q, g, k) = find_idx-get ps id j f in (q, ground arith, k)
  ]
]

pub findjob-get :
    (s : Server) (id : ℤ) (i : ℕ) (p : Job)
    → findjob s id ≡ some (i, p)
    → (get_elem? s.active_jobs i ≡ some p) × (p.jobid ≡ id)
unfolding findjob
findjob-get s id i p h = elim (Option-cases (find_idx s.active_jobs id)) [
  | inl n ↦ absurd (ground arith)
  | inr (j, f) ↦
      let (q, g, k) = find_idx-get s.active_jobs id j f in
      (ground (arith, g, k), ground (arith, g, k))
]
