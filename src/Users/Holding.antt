-- ===== src/Users/Holding.antt =====
-- server_user.c s_hold_job, s_cont_job: holding and continuing a job keep the counters of the server in
-- step with its jobs.
use task_spooler_plus.Base.{
  ℕ, ℤ, pos, negsuc, ◌+ℤ◌, ◌≡◌, refl, some, false, ◌&&◌, not, get_elem?, All-get, Option-cases,
  Bool-cases, arith, inl, inr, ◌==ℤ◌, ltb_ℤ, leb_ℤ, neg, i64abs,
}
use task_spooler_plus.State.{
  Job, User, Server, Env, Jobstate, queued, locked, is_queued, is_locked, is_pause, is_running,
}
use task_spooler_plus.Jobs.{put_job, with_user, findjob, config_running, is_sleep}
use task_spooler_plus.Jobs.Lookup.{findjob-get}
use task_spooler_plus.Jobs.Balance.{
  Accounted, IsHeld, Untouched, Untouched-Moves, Moves-trans, Moves-Accounted,
}
use task_spooler_plus.Jobs.Accounting.{config_running-Moves}
use task_spooler_plus.Jobs.Loops.{with_user-Accounted}
use task_spooler_plus.Jobs.Alike.{Accounted-Alike}
use task_spooler_plus.Users.{
  is_owner, add_queue, s_lock_queue, s_unlock_queue, hold_found, s_hold_job, cont_waiting,
  cont_found,
}
use task_spooler_plus.Users.Balance.{paused-Accounted}

-- A write to a job that leaves its slots alone.
written-Accounted :
    (s : Server) (i : ℕ) (p q : Job)
    → Accounted s
    → get_elem? s.active_jobs i ≡ some p
    → Untouched s p s q
    → IsHeld q
    → Accounted (put_job s i q)
written-Accounted s i p q a g u h = Moves-Accounted s s p q i a g (Untouched-Moves s s p q u) h

idle_of_waiting : (p : Job) → is_running p.state ≡ false → IsHeld p → p.num_allocated ≡ pos 0
idle_of_waiting p t h = ground arith

-- The move between the states of a queued and of a locked job, with the user's count of queued jobs.
moved-Accounted :
    (s : Server) (i : ℕ) (p : Job) (t : Jobstate) (k : ℤ)
    → Accounted s
    → get_elem? s.active_jobs i ≡ some p
    → is_running p.state ≡ false
    → is_running t ≡ false
    → Accounted (put_job (with_user s p.user (add_queue k)) i (record p { state = t }))
moved-Accounted s i p t k a g r r' =
    let z = idle_of_waiting p r (All-get IsHeld s.active_jobs i p a.each_job g) in
    written-Accounted (with_user s p.user (add_queue k)) i p (record p { state = t })
      (with_user-Accounted s p.user (add_queue k) (λ x. refl) a) g
      (refl, refl, refl, refl, refl, refl, refl, refl, refl) (rw r' z)

lock-Accounted :
    (s : Server) (i : ℕ) (p : Job)
    → Accounted s
    → get_elem? s.active_jobs i ≡ some p
    → Accounted (s_lock_queue s i p)
unfolding s_lock_queue
lock-Accounted s i p a g = elim (Bool-cases (is_queued p.state)) [
  | inr t ↦ rw t a
  | inl t ↦
      let r : is_running p.state ≡ false = ground arith in
      rw t (Accounted-Alike _ _ (moved-Accounted s i p locked (negsuc 0) a g r refl) refl refl refl)
]

unlock-Accounted :
    (s : Server) (i : ℕ) (p : Job)
    → Accounted s
    → get_elem? s.active_jobs i ≡ some p
    → Accounted (s_unlock_queue s i p)
unfolding s_unlock_queue
unlock-Accounted s i p a g = elim (Bool-cases (is_locked p.state)) [
  | inr t ↦ rw t a
  | inl t ↦
      let r : is_running p.state ≡ false = ground arith in
      rw t (Accounted-Alike _ _ (moved-Accounted s i p queued (pos 1) a g r refl) refl refl refl)
]

-- A new wall time.
timed-Accounted :
    (s : Server) (i : ℕ) (p : Job) (w : ℤ)
    → Accounted s
    → get_elem? s.active_jobs i ≡ some p
    → Accounted (put_job s i (record p { wall_time = w }))
timed-Accounted s i p w a g =
    written-Accounted s i p (record p { wall_time = w }) a g
      (refl, refl, refl, refl, refl, refl, refl, refl, refl)
      (All-get IsHeld s.active_jobs i p a.each_job g)

hold_found-Accounted :
    (e : Env) (s : Server) (u : ℕ) (x : User) (i : ℕ) (p : Job)
    → Accounted s
    → get_elem? s.active_jobs i ≡ some p
    → Accounted (hold_found e s u x i p)
unfolding hold_found
hold_found-Accounted e s u x i p a g = elim (Bool-cases (is_queued p.state)) [
  | inl t ↦ elim (Bool-cases (is_owner p u x)) [
    | inl o ↦ rw (t, o) (lock-Accounted s i p a g)
    | inr o ↦ rw (t, o) a
  ]
  | inr t ↦ elim (Bool-cases (is_locked p.state)) [
    | inl l ↦ rw (t, l) a
    | inr l ↦ elim (Bool-cases (is_pause p.state)) [
      | inl q ↦ elim (Bool-cases (ltb_ℤ p.wall_time (pos 0))) [
        | inl w ↦
            rw (t, l, q, w)
              (Accounted-Alike _ _ (timed-Accounted s i p (i64abs p.wall_time) a g) refl refl refl)
        | inr w ↦ rw (t, l, q, w) a
      ]
      | inr q ↦ elim (Bool-cases (not (p.pid ==ℤ pos 0) && is_owner p u x)) [
        | inl o ↦ rw (t, l, q, o) (paused-Accounted e s i p a g)
        | inr o ↦ rw (t, l, q, o) a
      ]
    ]
  ]
]

-- Holding a job keeps balanced counters balanced.
pub s_hold_job-Accounted :
    (e : Env) (s : Server) (sock id : ℤ) (u : ℕ) (x : User)
    → Accounted s
    → Accounted (s_hold_job e s sock id u x)
unfolding s_hold_job
s_hold_job-Accounted e s sock id u x a = elim (Bool-cases (ltb_ℤ x.max_slots (pos 0))) [
  | inl t ↦ rw (s_hold_job, t) (Accounted-Alike s _ a refl refl refl)
  | inr t ↦ elim (Option-cases (findjob s id)) [
    | inl n ↦ rw (s_hold_job, t, n) (Accounted-Alike s _ a refl refl refl)
    | inr ((i, p), f) ↦
        rw (s_hold_job, t, f)
          (Accounted-Alike _ _ (hold_found-Accounted e s u x i p a (findjob-get s id i p f).0) refl
            refl refl)
  ]
]

cont_waiting-Accounted :
    (e : Env) (s : Server) (u : ℕ) (x : User) (i : ℕ) (p : Job) (w : ℤ)
    → Accounted s
    → get_elem? s.active_jobs i ≡ some p
    → is_running p.state ≡ false
    → Accounted (cont_waiting e s u x i (record p { wall_time = w }))
unfolding cont_waiting
cont_waiting-Accounted e s u x i p w a g r =
    let q : Job = record p { wall_time = w } in
    elim (Bool-cases (not (q.pid ==ℤ pos 0) && is_owner q u x)) [
      | inr o ↦ rw o (timed-Accounted s i p w a g)
      | inl o ↦
          elim (Bool-cases (
            leb_ℤ (x.busy +ℤ q.num_slots) x.max_slots
            && leb_ℤ (s.busy_slots +ℤ q.num_slots) s.max_slots)) [
              | inr b ↦
                  rw (o, b)
                    (Accounted-Alike _ _ (timed-Accounted s i p (neg (i64abs w)) a g) refl refl
                      refl)
              | inl b ↦ elim (Option-cases (config_running e s q)) [
                | inl c ↦ rw (o, b, c) (timed-Accounted s i p w a g)
                | inr ((s', p'), c) ↦ rw (o, b, c) (resumed e s s' i p p' w a g r c)
              ]
            ]
    ]
  where
    resumed :
        (e : Env) (s s' : Server) (i : ℕ) (p p' : Job) (w : ℤ)
        → Accounted s
        → get_elem? s.active_jobs i ≡ some p
        → is_running p.state ≡ false
        → config_running e s (record p { wall_time = w }) ≡ some (s', p')
        → Accounted (put_job s' i p')
    resumed e s s' i p p' w a g r c =
        let h = All-get IsHeld s.active_jobs i p a.each_job g in
        let (m, st, k) =
          config_running-Moves e s s' (record p { wall_time = w }) p' (idle_of_waiting p r h) c in
        Moves-Accounted s s' p p' i a g
          (Moves-trans
            (Untouched-Moves s s p (record p { wall_time = w })
              (refl, refl, refl, refl, refl, refl, refl, refl, refl))
            m)
          (rw st k)

-- What s_cont_job does to an active job keeps balanced counters balanced.
pub cont_found-Accounted :
    (e : Env) (s : Server) (u : ℕ) (x : User) (i : ℕ) (p : Job)
    → Accounted s
    → get_elem? s.active_jobs i ≡ some p
    → Accounted (cont_found e s u x i p)
unfolding cont_found
cont_found-Accounted e s u x i p a g =
    let q : Job = record p { wall_time = i64abs p.wall_time } in
    elim (Bool-cases (is_locked p.state)) [
      | inl l ↦ elim (Bool-cases (is_owner p u x)) [
        | inl o ↦ rw (l, o) (unlock-Accounted s i p a g)
        | inr o ↦ rw (l, o) a
      ]
      | inr l ↦ elim (Bool-cases (is_queued p.state)) [
        | inl t ↦ rw (l, t) a
        | inr t ↦ elim (Bool-cases (is_running p.state)) [
          | inr r ↦ rw (l, t, r) (cont_waiting-Accounted e s u x i p (i64abs p.wall_time) a g r)
          | inl r ↦ elim (Bool-cases (is_sleep e q ==ℤ pos 0)) [
            | inl z ↦ rw (l, t, r, z) (timed-Accounted s i p (i64abs p.wall_time) a g)
            | inr z ↦
                rw (l, t, r, z)
                  (Accounted-Alike _ _ (timed-Accounted s i p (i64abs p.wall_time) a g) refl refl
                    refl)
          ]
        ]
      ]
    ]
