-- ===== src/Usage/Spared.antt =====
-- jobs.c s_check_timeout: the running jobs that the test for a time-out spares.
use task_spooler_plus.Base.{
  ℕ, zero, suc, ◌≤◌, ◌≡◌, refl, ap, sym, ◌∙◌, subst, List, [], ◌∷◌, ◌++◌, some, false, ◌&&◌,
  get_elem?, remove_at, All, All-append, Option-cases, Bool-cases, arith, inl, inr, ◌==◌,
}
use task_spooler_plus.State.{Job, Server, Env, pause, is_running}
use task_spooler_plus.Jobs.{s_relegate_job, safe_pause_job, free_cores, pause_job_config}
use task_spooler_plus.Usage.{is_timed_out, collect_timed_out, push_back}

-- Not a running job that is timed out.
abbrev pub IsSpared : Env → Job → Type 0
IsSpared e p = (is_running p.state && is_timed_out e p) ≡ false

-- The places from `n` on.
abbrev From : Env → ℕ → Server → Type 0
From e n s = (j : ℕ) (p : Job) → n ≤ j → get_elem? s.active_jobs j ≡ some p → IsSpared e p

pub relegated-active :
    (e : Env) (s : Server) (p : Job) → (s_relegate_job e s p).0.active_jobs ≡ s.active_jobs
unfolding s_relegate_job safe_pause_job free_cores pause_job_config
relegated-active e s p = ground arith

pub relegated-pause : (e : Env) (s : Server) (p : Job) → (s_relegate_job e s p).1.state ≡ pause
unfolding s_relegate_job
relegated-pause e s p = refl

get-remove_at :
    (ps : List Job) (i j : ℕ) → i ≤ j → get_elem? (remove_at ps i) j ≡ get_elem? ps (suc j)
get-remove_at [] i j h = refl
get-remove_at (p ∷ ps) zero j h = refl
get-remove_at (p ∷ ps) (suc i) zero h = absurd (omega (arith, h))
get-remove_at (p ∷ ps) (suc i) (suc j) h = get-remove_at ps i j (omega (arith, h))

after_removal :
    (e : Env) (i : ℕ) (s t : Server)
    → t.active_jobs ≡ remove_at s.active_jobs i
    → From e (suc i) s
    → From e i t
after_removal e i s t a f j p l g =
    f (suc j) p (omega (arith, l))
      (sym (get-remove_at s.active_jobs i j l) ∙ ap (λ l. get_elem? l j) (sym a) ∙ g)

after_look :
    (e : Env) (i : ℕ) (s : Server)
    → ((p : Job) → get_elem? s.active_jobs i ≡ some p → IsSpared e p)
    → From e (suc i) s
    → From e i s
after_look e i s h f j p l g = elim (Bool-cases (i == j)) [
  | inl t ↦ let ij : j ≡ i = ground arith in h p (ap (get_elem? s.active_jobs) (sym ij) ∙ g)
  | inr t ↦ f j p (ground arith) g
]

abbrev IsPaused : Job → Type 0
IsPaused p = p.state ≡ pause

pub All-of_get {κ} :
    (P : Job → Type κ) (ps : List Job)
    → ((j : ℕ) (p : Job) → get_elem? ps j ≡ some p → P p)
    → All P ps
All-of_get P [] h = tt
All-of_get P (p ∷ ps) h = (h 0 p refl, All-of_get P ps (λ j. h (suc j)))

pub collected :
    (n : ℕ) (e : Env) (s : Server) (ps : List Job)
    → From e n s
    → All IsPaused ps
    → All (IsSpared e) (collect_timed_out n e s ps).0.active_jobs
      × All IsPaused (collect_timed_out n e s ps).1
unfolding collect_timed_out
collected zero e s ps f h =
    (All-of_get (IsSpared e) s.active_jobs (λ j. λ p. f j p (omega arith)), h)
collected (suc i) e s ps f h = elim (Option-cases (get_elem? s.active_jobs i)) [
  | inl n ↦
      rw (collect_timed_out, n)
        (collected i e s ps (after_look e i s (λ p. λ g. absurd (ground arith)) f) h)
  | inr (q, g) ↦ elim (Bool-cases (is_running q.state && is_timed_out e q)) [
    | inr t ↦
        rw (collect_timed_out, g, t)
          (collected i e s ps
            (after_look e i s (λ p. λ g'. let k : q ≡ p = ground arith in subst (IsSpared e) k t) f)
            h)
    | inl t ↦
        let r = s_relegate_job e s q in
        let left : Server = record (r.0) { active_jobs = remove_at r.0.active_jobs i } in
        rw (collect_timed_out, g, t)
          (collected i e left (ps ++ r.1 ∷ [])
            (after_removal e i s left (ap (λ l. remove_at l i) (relegated-active e s q)) f)
            (All-append IsPaused ps (r.1 ∷ []) h (relegated-pause e s q, tt)))
  ]
]

paused-IsSpared : (e : Env) (p : Job) → IsPaused p → IsSpared e p
paused-IsSpared e p h = let k : is_running p.state ≡ false = ap is_running h in rw k refl

pub push_back-IsSpared :
    (e : Env) (ps : List Job) (s : Server)
    → All (IsSpared e) s.active_jobs
    → All IsPaused ps
    → All (IsSpared e) (push_back ps s).active_jobs
unfolding push_back
push_back-IsSpared e [] s a h = a
push_back-IsSpared e (p ∷ ps) s a h =
    push_back-IsSpared e ps _
      (All-append (IsSpared e) s.active_jobs (p ∷ []) a (paused-IsSpared e p h.0, tt)) h.1
