-- ===== src/Queue/Order.antt =====
-- jobs.c s_move_urgent, s_swap_jobs and job_ops.c s_sort_jobs: they only reorder the active jobs.
use task_spooler_plus.Base.{
  ℕ, zero, suc, ℤ, negsuc, ◌+◌, ◌≡◌, ◌≢◌, refl, sym, ap, ◌∙◌, subst, List, [], ◌∷◌, ◌++◌, none,
  some, Bool, true, false, Bool-cases, Option-cases, if◌then◌else◌, get_elem?, set, remove_at,
  length, All, arith, get_elem?-set_self, get_elem?-set_ne, lt_of_get, inl, inr, ◌==ℤ◌, ==ℤ_iff,
  ◌==◌,
}
use task_spooler_plus.State.{Job, Server, is_running, send_list_line}
use task_spooler_plus.Jobs.{find_idx, findjob_idx, emit}
use task_spooler_plus.Jobs.Lookup.{find_idx-get}
use task_spooler_plus.Queue.{
  has_urgent, s_move_urgent, swap_at, s_swap_jobs, running_part, other_part, s_sort_jobs,
}

-- How often a list has jobs that a test takes.
unfoldable pub tally : (Job → Bool) → List Job → ℕ
tally f [] = 0
tally f (p ∷ ps) = let rest = tally f ps in if f p then suc rest else rest

-- The same jobs, in any order: each test takes as many of one list as of the other.
abbrev pub SameJobs : List Job → List Job → Type 0
SameJobs ps qs = (f : Job → Bool) → tally f ps ≡ tally f qs

tally-append : (f : Job → Bool) (ps qs : List Job) → tally f (ps ++ qs) ≡ tally f ps + tally f qs
unfolding tally
tally-append f [] qs = omega arith
tally-append f (p ∷ ps) qs = ground (arith, tally-append f ps qs)

abbrev weight_of : (Job → Bool) → Job → ℕ
weight_of f p = if f p then 1 else 0

tally-cons :
    (f : Job → Bool) (p : Job) (ps : List Job) → tally f (p ∷ ps) ≡ weight_of f p + tally f ps
unfolding tally
tally-cons f p ps = ground arith

tally-remove_at :
    (f : Job → Bool) (ps : List Job) (i : ℕ) (p : Job)
    → get_elem? ps i ≡ some p
    → weight_of f p + tally f (remove_at ps i) ≡ tally f ps
tally-remove_at f [] i p g = cc
tally-remove_at f (q ∷ ps) zero p g =
    let e : q ≡ p = ground arith in rw (← e) (sym (tally-cons f q ps))
tally-remove_at f (q ∷ ps) (suc i) p g =
    omega (arith, tally-cons f q ps, tally-cons f q (remove_at ps i), tally-remove_at f ps i p g)

tally-set :
    (f : Job → Bool) (ps : List Job) (i : ℕ) (p q : Job)
    → get_elem? ps i ≡ some p
    → tally f (set ps i q) + weight_of f p ≡ tally f ps + weight_of f q
tally-set f [] i p q g = cc
tally-set f (r ∷ ps) zero p q g =
    let e : weight_of f r ≡ weight_of f p = ap (weight_of f) (let e : r ≡ p = ground arith in e) in
    omega (arith, tally-cons f q ps, tally-cons f r ps, e)
tally-set f (r ∷ ps) (suc i) p q g =
    omega (arith, tally-cons f r ps, tally-cons f r (set ps i q), tally-set f ps i p q g)

-- The job at the second place stays there when it is written to the first.
get-set :
    (ps : List Job) (i j : ℕ) (p q : Job)
    → get_elem? ps i ≡ some p
    → get_elem? ps j ≡ some q
    → get_elem? (set ps i q) j ≡ some q
get-set ps i j p q g h = elim (Bool-cases (i == j)) [
  | inl t ↦
      let e : i ≡ j = ground arith in
      subst (λ k. get_elem? (set ps i q) k ≡ some q) e
        (get_elem?-set_self ps i q (lt_of_get ps i p g))
  | inr t ↦ get_elem?-set_ne ps q (λ e. ground arith) ∙ h
]

swap_at-SameJobs : (ps : List Job) (i j : ℕ) → SameJobs (swap_at ps i j) ps
unfolding swap_at
swap_at-SameJobs ps i j f = elim (Option-cases (get_elem? ps i)) [
  | inl n ↦ rw (swap_at, n)
  | inr (p, g) ↦ elim (Option-cases (get_elem? ps j)) [
    | inl n ↦ rw (swap_at, g, n)
    | inr (q, h) ↦
        rw (swap_at, g, h)
          (omega (
            arith,
            tally-set f ps i p q g,
            tally-set f (set ps i q) j q p (get-set ps i j p q g h),
          ))
  ]
]

-- The swap of two jobs loses no job and makes none.
s_swap_jobs-SameJobs :
    (s : Server) (sock id1 id2 : ℤ)
    → SameJobs (s_swap_jobs s sock id1 id2).active_jobs s.active_jobs
unfolding s_swap_jobs
s_swap_jobs-SameJobs s sock id1 id2 f = elim (Option-cases (findjob_idx s id1)) [
  | inl n ↦ rw (s_swap_jobs, n)
  | inr (i, g) ↦ elim (Option-cases (findjob_idx s id2)) [
    | inl n ↦ rw (s_swap_jobs, g, n)
    | inr (j, h) ↦ rw (s_swap_jobs, g, h) (swap_at-SameJobs s.active_jobs i j f)
  ]
]

partition-tally :
    (f : Job → Bool) (ps : List Job)
    → tally f (running_part ps) + tally f (other_part ps) ≡ tally f ps
unfolding running_part other_part tally
partition-tally f [] = refl
partition-tally f (p ∷ ps) = ground (arith, partition-tally f ps)

All-running : (ps : List Job) → All (λ p. is_running p.state ≡ true) (running_part ps)
unfolding running_part
All-running [] = tt
All-running (p ∷ ps) = elim (Bool-cases (is_running p.state)) [
  | inl t ↦ rw t (t, All-running ps)
  | inr t ↦ rw t (All-running ps)
]

All-other : (ps : List Job) → All (λ p. is_running p.state ≡ false) (other_part ps)
unfolding other_part
All-other [] = tt
All-other (p ∷ ps) = elim (Bool-cases (is_running p.state)) [
  | inl t ↦ rw t (All-other ps)
  | inr t ↦ rw t (t, All-other ps)
]

-- The sort keeps the jobs, and puts all the running ones before all the others.
pub s_sort_jobs_lem :
    (s : Server)
    → SameJobs (s_sort_jobs s).active_jobs s.active_jobs
      × ((ps : List Job) × (qs : List Job) × ((s_sort_jobs s).active_jobs ≡ ps ++ qs)
          × All (λ p. is_running p.state ≡ true) ps
          × All (λ p. is_running p.state ≡ false) qs)
unfolding s_sort_jobs
s_sort_jobs_lem s = (
  (λ f.
      tally-append f (running_part s.active_jobs) (other_part s.active_jobs)
      ∙ partition-tally f s.active_jobs),
  (
    running_part s.active_jobs,
    other_part s.active_jobs,
    refl,
    All-running s.active_jobs,
    All-other s.active_jobs,
  ),
)

-- A job that is found by an id other than -1 is first in the queue after s_move_urgent, and the
-- jobs stay the same.
pub s_move_urgent-first :
    (s : Server) (sock id : ℤ) (i : ℕ)
    → id ≢ negsuc 0
    → findjob_idx s id ≡ some i
    → ((p : Job) × (get_elem? (s_move_urgent s sock id).active_jobs 0 ≡ some p) × (p.jobid ≡ id))
      × SameJobs (s_move_urgent s sock id).active_jobs s.active_jobs
unfolding s_move_urgent has_urgent findjob_idx
s_move_urgent-first s sock id i n g =
    let (p, h, e) = find_idx-get s.active_jobs id i g in
    elim (Bool-cases (id ==ℤ negsuc 0)) [
      | inl t ↦ absurd (n ((==ℤ_iff id (negsuc 0)).0 t))
      | inr t ↦
          rw (t, g, h)
            (
              (p, refl, e),
              (λ f.
                  tally-cons f p (remove_at s.active_jobs i)
                  ∙ tally-remove_at f s.active_jobs i p h),
            )
    ]

absent : (ps : List Job) (id : ℤ) → All (λ p. p.jobid ≢ id) ps → find_idx ps id ≡ none
unfolding find_idx
absent [] id h = refl
absent (p ∷ ps) id h = elim (Bool-cases (p.jobid ==ℤ id)) [
  | inl t ↦ absurd (h.0 ((==ℤ_iff p.jobid id).0 t))
  | inr t ↦ rw (t, absent ps id h.1)
]

-- When no job has the id -1, s_move_urgent with the id -1 refuses and changes nothing, though it
-- finds the last job.
pub s_move_urgent-last_job :
    (s : Server) (sock : ℤ)
    → All (λ p. p.jobid ≢ negsuc 0) s.active_jobs
    → s_move_urgent s sock (negsuc 0) ≡ emit (send_list_line sock) s
unfolding s_move_urgent has_urgent findjob_idx
s_move_urgent-last_job s sock h = elim (Bool-cases (length s.active_jobs == 0)) [
  | inl z ↦ rw z
  | inr z ↦ rw (z, absent s.active_jobs (negsuc 0) h)
]
