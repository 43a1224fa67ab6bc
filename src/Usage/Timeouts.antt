-- ===== src/Usage/Timeouts.antt =====
-- jobs.c s_check_timeout: what becomes of the jobs that were active.
use task_spooler_plus.Base.{
  ◌<◌, ◌<ℤ◌, ◌⊎◌, ℕ, zero, suc, pos, ◌≤ℤ◌, ◌≡◌, ◌≢◌, refl, ap, sym, ◌∙◌, subst, List, [], ◌∷◌, ◌++◌,
  some, true, i64abs, ◌&&◌, get_elem?, lt_of_get, remove_at, length, All, Option-cases, Bool-cases,
  arith, inl, inr, ◌==◌,
}
use task_spooler_plus.State.{Job, Server, Env, pause, is_running}
use task_spooler_plus.Newjob.Fresh.{All-map}
use task_spooler_plus.Jobs.{
  get_work_time_by_job, s_relegate_job, safe_pause_job, free_cores, pause_job_config,
}
use task_spooler_plus.Usage.{is_timed_out, collect_timed_out, push_back, s_check_timeout}
use task_spooler_plus.Usage.Spared.{
  IsSpared, relegated-active, relegated-pause, All-of_get, collected, push_back-IsSpared,
}

-- A job is at some place of a list.
abbrev pub Has : List Job → Job → Type 0
Has ps p = (k : ℕ) × (get_elem? ps k ≡ some p)

Has-append : (ps qs : List Job) (p : Job) → Has ps p → Has (ps ++ qs) p
Has-append [] qs p (k, g) = cc
Has-append (x ∷ ps) qs p (zero, g) = (0, g)
Has-append (x ∷ ps) qs p (suc k, g) = let (m, h) = Has-append ps qs p (k, g) in (suc m, h)

Has-remove_at :
    (ps : List Job) (i : ℕ) (p q : Job)
    → get_elem? ps i ≡ some q
    → q ≢ p
    → Has ps p
    → Has (remove_at ps i) p
Has-remove_at [] i p q g n (k, h) = cc
Has-remove_at (x ∷ ps) zero p q g n (zero, h) = absurd (n cc)
Has-remove_at (x ∷ ps) zero p q g n (suc k, h) = (k, h)
Has-remove_at (x ∷ ps) (suc i) p q g n (zero, h) = (0, h)
Has-remove_at (x ∷ ps) (suc i) p q g n (suc k, h) =
    let (m, e) = Has-remove_at ps i p q g n (k, h) in (suc m, e)

collected-Has :
    (n : ℕ) (e : Env) (s : Server) (ps : List Job) (p : Job)
    → IsSpared e p
    → Has s.active_jobs p
    → Has (collect_timed_out n e s ps).0.active_jobs p
unfolding collect_timed_out
collected-Has zero e s ps p f h = h
collected-Has (suc i) e s ps p f h = elim (Option-cases (get_elem? s.active_jobs i)) [
  | inl n ↦ rw (collect_timed_out, n) (collected-Has i e s ps p f h)
  | inr (q, g) ↦ elim (Bool-cases (is_running q.state && is_timed_out e q)) [
    | inr t ↦ rw (collect_timed_out, g, t) (collected-Has i e s ps p f h)
    | inl t ↦
        let r = s_relegate_job e s q in
        let left : Server = record (r.0) { active_jobs = remove_at r.0.active_jobs i } in
        let other : q ≢ p = λ c. absurd (ground (arith, t, subst (IsSpared e) (sym c) f)) in
        rw (collect_timed_out, g, t)
          (collected-Has i e left (ps ++ r.1 ∷ []) p f (
            subst (λ l. Has (remove_at l i) p) (sym (relegated-active e s q))
              (Has-remove_at s.active_jobs i p q g other h)))
  ]
]

push_back-Has :
    (ps : List Job) (s : Server) (p : Job)
    → Has s.active_jobs p
    → Has (push_back ps s).active_jobs p
unfolding push_back
push_back-Has [] s p h = h
push_back-Has (q ∷ ps) s p h = push_back-Has ps _ p (Has-append s.active_jobs (q ∷ []) p h)

-- A job that runs as a process and has worked for 3 seconds is not beyond its wall time.
abbrev pub IsInTime : Env → Job → Type 0
IsInTime e p =
    is_running p.state ≡ true
    → p.pid ≢ pos 0
    → pos 3 ≤ℤ get_work_time_by_job e p
    → get_work_time_by_job e p ≤ℤ i64abs p.wall_time

IsSpared-IsInTime : (e : Env) (p : Job) → IsSpared e p → IsInTime e p
unfolding is_timed_out
IsSpared-IsInTime e p f r n w = ground arith

-- A job that runs as a process and has worked for 3 seconds, and for longer than its wall time.
abbrev pub IsLate : Env → Job → Type 0
IsLate e p =
    (is_running p.state ≡ true)
    × (p.pid ≢ pos 0)
    × (pos 3 ≤ℤ get_work_time_by_job e p)
    × (i64abs p.wall_time <ℤ get_work_time_by_job e p)

timed_out-IsLate :
    (e : Env) (p : Job) → (is_running p.state && is_timed_out e p) ≡ true → IsLate e p
unfolding is_timed_out
timed_out-IsLate e p t = (ground arith, ground arith, ground arith, ground arith)

-- A job of the same id is at some place of a list, paused.
abbrev pub HasPaused : List Job → Job → Type 0
HasPaused ps p = (q : Job) × Has ps q × (q.jobid ≡ p.jobid) × (q.state ≡ pause)

relegated-jobid : (e : Env) (s : Server) (p : Job) → (s_relegate_job e s p).1.jobid ≡ p.jobid
unfolding s_relegate_job safe_pause_job free_cores pause_job_config
relegated-jobid e s p = ground arith

Has-last : (ps : List Job) (q : Job) → Has (ps ++ q ∷ []) q
Has-last [] q = (0, refl)
Has-last (p ∷ ps) q = let (k, g) = Has-last ps q in (suc k, g)

before_removed : (ps : List Job) (i k : ℕ) → k < i → get_elem? (remove_at ps i) k ≡ get_elem? ps k
before_removed [] i k l = refl
before_removed (p ∷ ps) zero k l = absurd (omega (arith, l))
before_removed (p ∷ ps) (suc i) zero l = refl
before_removed (p ∷ ps) (suc i) (suc k) l = before_removed ps i k (omega (arith, l))

out-grows :
    (n : ℕ) (e : Env) (s : Server) (ps : List Job) (q : Job)
    → Has ps q
    → Has (collect_timed_out n e s ps).1 q
unfolding collect_timed_out
out-grows zero e s ps q h = h
out-grows (suc i) e s ps q h = elim (Option-cases (get_elem? s.active_jobs i)) [
  | inl n ↦ rw (collect_timed_out, n) (out-grows i e s ps q h)
  | inr (x, g) ↦ elim (Bool-cases (is_running x.state && is_timed_out e x)) [
    | inr t ↦ rw (collect_timed_out, g, t) (out-grows i e s ps q h)
    | inl t ↦
        let r = s_relegate_job e s x in
        rw (collect_timed_out, g, t)
          (out-grows i e (record (r.0) { active_jobs = remove_at r.0.active_jobs i })
            (ps ++ r.1 ∷ []) q (Has-append ps (r.1 ∷ []) q h))
  ]
]

collected-late :
    (n : ℕ) (e : Env) (s : Server) (ps : List Job) (k : ℕ) (p : Job)
    → k < n
    → get_elem? s.active_jobs k ≡ some p
    → (is_running p.state && is_timed_out e p) ≡ true
    → HasPaused (collect_timed_out n e s ps).1 p
unfolding collect_timed_out
collected-late zero e s ps k p l g t = absurd (omega (arith, l))
collected-late (suc i) e s ps k p l g t = elim (Bool-cases (k == i)) [
  | inl c ↦
      let r = s_relegate_job e s p in
      let left : Server = record (r.0) { active_jobs = remove_at r.0.active_jobs i } in
      let here : get_elem? s.active_jobs i ≡ some p =
        ap (get_elem? s.active_jobs) (let ki : i ≡ k = ground arith in ki) ∙ g in
      rw (collect_timed_out, here, t)
        (
          r.1,
          out-grows i e left (ps ++ r.1 ∷ []) r.1 (Has-last ps r.1),
          relegated-jobid e s p,
          relegated-pause e s p,
        )
  | inr c ↦
      let below : k < i = ground arith in
      elim (Option-cases (get_elem? s.active_jobs i)) [
        | inl n ↦ rw (collect_timed_out, n) (collected-late i e s ps k p below g t)
        | inr (x, f) ↦ elim (Bool-cases (is_running x.state && is_timed_out e x)) [
          | inr u ↦ rw (collect_timed_out, f, u) (collected-late i e s ps k p below g t)
          | inl u ↦
              let r = s_relegate_job e s x in
              rw (collect_timed_out, f, u)
                (collected-late i e (record (r.0) { active_jobs = remove_at r.0.active_jobs i })
                  (ps ++ r.1 ∷ []) k p below
                  (ap (λ l. get_elem? (remove_at l i) k) (relegated-active e s x)
                    ∙ (before_removed s.active_jobs i k below ∙ g))
                  t)
        ]
      ]
]

push_back-out :
    (ps : List Job) (s : Server) (q : Job) → Has ps q → Has (push_back ps s).active_jobs q
unfolding push_back
push_back-out [] s q (k, g) = cc
push_back-out (p ∷ ps) s q (zero, g) = push_back-Has ps _ q (
    subst (λ x. Has (s.active_jobs ++ p ∷ []) x) (let e : p ≡ q = cc in e)
      (Has-last s.active_jobs p))
push_back-out (p ∷ ps) s q (suc k, g) = push_back-out ps _ q (k, g)

-- What becomes of a job that was active.
abbrev pub Outlived : Env → List Job → Job → Type 0
Outlived e ps p = (IsInTime e p × Has ps p) ⊎ (IsLate e p × HasPaused ps p)

s_check_timeout-Outlived :
    (e : Env) (s : Server) (k : ℕ) (p : Job)
    → get_elem? s.active_jobs k ≡ some p
    → Outlived e (s_check_timeout e s).0.active_jobs p
unfolding s_check_timeout
s_check_timeout-Outlived e s k p g =
    let n = length s.active_jobs in
    elim (Bool-cases (is_running p.state && is_timed_out e p)) [
      | inr t ↦
          inl (IsSpared-IsInTime e p t, push_back-Has _ _ p (collected-Has n e s [] p t (k, g)))
      | inl t ↦
          let (q, h, i, z) = collected-late n e s [] k p (lt_of_get s.active_jobs k p g) g t in
          inr (timed_out-IsLate e p t, (q, push_back-out _ _ q h, i, z))
    ]

-- After s_check_timeout no active job that runs as a process and has worked for 3 seconds is
-- beyond its wall time, and of the jobs that were active before, each that was no such job beyond
-- its wall time is still active, unchanged, and each that was is still active and is paused.
pub s_check_timeout-IsInTime :
    (e : Env) (s : Server)
    → All (IsInTime e) (s_check_timeout e s).0.active_jobs
      × All (Outlived e (s_check_timeout e s).0.active_jobs) s.active_jobs
unfolding s_check_timeout
s_check_timeout-IsInTime e s =
    let (a, h) =
      collected (length s.active_jobs) e s []
        (λ j. λ p. λ l. λ g. absurd (omega (arith, l, lt_of_get s.active_jobs j p g))) tt in
    (
      All-map _ _ _ (IsSpared-IsInTime e) (push_back-IsSpared e _ _ a h),
      All-of_get _ s.active_jobs (s_check_timeout-Outlived e s),
    )
