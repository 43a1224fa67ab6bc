-- ===== src/Users/Balance.antt =====
-- server_user.c: suspending, resuming, holding and requeueing keep the counters of the server in step with its jobs.
use task_spooler_plus.Base.{
  ℕ, ℤ, pos, ◌≡◌, refl, some, true, ◌&&◌, not, get_elem?, length, All-get, Option-cases, Bool-cases,
  arith, inl, inr, ◌==◌, ◌==ℤ◌,
}
use task_spooler_plus.State.{Job, User, Server, Env, pause, is_running, is_pause}
use task_spooler_plus.Jobs.{
  for_each, put_job, with_user, config_running, safe_pause_job, s_relegate_job, findjob,
}
use task_spooler_plus.Jobs.Lookup.{findjob-get}
use task_spooler_plus.Jobs.Balance.{
  Accounted, IsHeld, Moves, Moves-trans, Untouched-Moves, Moves-Accounted,
}
use task_spooler_plus.Jobs.Accounting.{
  config_running-Moves, safe_pause_job-Moves, safe_pause_job-free, s_relegate_job-Moves,
  s_relegate_job-state,
}
use task_spooler_plus.Jobs.Loops.{for_each-keeps, with_user-Accounted, Accounted-to_end}
use task_spooler_plus.Jobs.Alike.{Accounted-Alike}
use task_spooler_plus.Users.{
  is_owner, resume_one, s_resume_user, suspend_one, lock_user, unlock_user, move_to_end,
  s_requeue_job,
}

paused-Moves :
    (e : Env) (s : Server) (p : Job)
    → IsHeld p
    → Moves s p (safe_pause_job e s p).0 (record (safe_pause_job e s p).1 { state = pause })
paused-Moves e s p h =
    Moves-trans (safe_pause_job-Moves e s p h)
      (Untouched-Moves _ _ _ _ (refl, refl, refl, refl, refl, refl, refl, refl, refl))

-- Pausing a job in its place, as holding and suspending do.
pub paused-Accounted :
    (e : Env) (s : Server) (i : ℕ) (p : Job)
    → Accounted s
    → get_elem? s.active_jobs i ≡ some p
    → Accounted
        (put_job (safe_pause_job e s p).0 i (record (safe_pause_job e s p).1 { state = pause }))
paused-Accounted e s i p a g =
    Moves-Accounted s _ p _ i a g
      (paused-Moves e s p (All-get IsHeld s.active_jobs i p a.each_job g))
      (safe_pause_job-free e s p)

suspend_one-Accounted :
    (e : Env) (sock : ℤ) (u : ℕ) (s : Server) (i : ℕ) (p : Job)
    → Accounted s
    → get_elem? s.active_jobs i ≡ some p
    → Accounted (suspend_one e sock u s i p)
unfolding suspend_one
suspend_one-Accounted e sock u s i p a g = elim (Bool-cases (p.user == u && is_running p.state)) [
  | inr t ↦ rw t a
  | inl t ↦ elim (Bool-cases (p.pid ==ℤ pos 0)) [
    | inl z ↦ rw (t, z) (Accounted-Alike s _ a refl refl refl)
    | inr z ↦ rw (t, z) (paused-Accounted e s i p a g)
  ]
]

-- The loop of s_suspend_user keeps balanced counters balanced.
pub suspended-Accounted :
    (e : Env) (s : Server) (sock : ℤ) (u n : ℕ)
    → Accounted s
    → Accounted (for_each n 0 (suspend_one e sock u) (with_user s u lock_user))
suspended-Accounted e s sock u n a =
    for_each-keeps Accounted (suspend_one e sock u) (suspend_one-Accounted e sock u) n 0 _
      (with_user-Accounted s u lock_user (λ x. refl) a)

idle_of_pause : (p : Job) → is_pause p.state ≡ true → IsHeld p → p.num_allocated ≡ pos 0
idle_of_pause p t h = ground arith

resume_one-Accounted :
    (e : Env) (u : ℕ) (s : Server) (i : ℕ) (p : Job)
    → Accounted s
    → get_elem? s.active_jobs i ≡ some p
    → Accounted (resume_one e u s i p)
unfolding resume_one
resume_one-Accounted e u s i p a g =
    elim (Bool-cases (p.user == u && is_pause p.state && not (p.pid ==ℤ pos 0))) [
      | inr t ↦ rw t a
      | inl t ↦
          let z : is_pause p.state ≡ true = ground arith in
          let n = idle_of_pause p z (All-get IsHeld s.active_jobs i p a.each_job g) in
          elim (Option-cases (config_running e s p)) [
            | inl c ↦ rw (t, c) a
            | inr ((s', p'), c) ↦
                let (m, r, h) = config_running-Moves e s s' p p' n c in
                rw (t, c) (Moves-Accounted s s' p p' i a g m (rw r h))
          ]
    ]

-- Resuming a user keeps balanced counters balanced.
pub s_resume_user-Accounted :
    (e : Env) (s : Server) (sock : ℤ) (u : ℕ) → Accounted s → Accounted (s_resume_user e s sock u)
unfolding s_resume_user
s_resume_user-Accounted e s sock u a =
    Accounted-Alike _ _
      (for_each-keeps Accounted (resume_one e u) (resume_one-Accounted e u) (length s.active_jobs) 0
        _ (with_user-Accounted s u unlock_user (λ x. refl) a))
      refl refl refl

move_to_end-Accounted : (s : Server) (id : ℤ) → Accounted s → Accounted (move_to_end s id)
unfolding move_to_end
move_to_end-Accounted s id a = elim (Option-cases (findjob s id)) [
  | inl n ↦ rw (move_to_end, n) a
  | inr ((i, p), f) ↦
      rw (move_to_end, f)
        (Accounted-Alike _ _ (Accounted-to_end s i p a (findjob-get s id i p f).0) refl refl refl)
]

-- Requeueing a job keeps balanced counters balanced.
pub s_requeue_job-Accounted :
    (e : Env) (s : Server) (sock id : ℤ) (u : ℕ) (x : User)
    → Accounted s
    → Accounted (s_requeue_job e s sock id u x)
unfolding s_requeue_job
s_requeue_job-Accounted e s sock id u x a = elim (Option-cases (findjob s id)) [
  | inl n ↦ rw (s_requeue_job, n) (Accounted-Alike s _ a refl refl refl)
  | inr ((i, p), f) ↦
      let g = (findjob-get s id i p f).0 in
      let h = All-get IsHeld s.active_jobs i p a.each_job g in
      let moved : Accounted (put_job (s_relegate_job e s p).0 i (s_relegate_job e s p).1) =
        Moves-Accounted s _ p _ i a g (s_relegate_job-Moves e s p h)
          (s_relegate_job-state e s p h).1 in
      elim (Bool-cases (is_owner p u x)) [
        | inr o ↦ rw (s_requeue_job, f, o) (Accounted-Alike s _ a refl refl refl)
        | inl o ↦ elim (Bool-cases (not (is_running p.state) && not (is_pause p.state))) [
          | inl t ↦ rw (s_requeue_job, f, o, t) (Accounted-Alike s _ a refl refl refl)
          | inr t ↦
              rw (s_requeue_job, f, o, t)
                (Accounted-Alike _ _ (move_to_end-Accounted _ id moved) refl refl refl)
        ]
      ]
]
