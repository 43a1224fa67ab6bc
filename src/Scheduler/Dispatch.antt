-- ===== src/Scheduler/Dispatch.antt =====
-- jobs.c: one dispatch of next_run_job. It succeeds, keeps the server sound, and stays within the
-- free slots and the limit of the user.
use task_spooler_plus.Base.{
  ℕ, ℤ, pos, ◌+◌, ◌%◌, ◌<◌, ◌-ℤ◌, ◌≡◌, refl, ◌∙◌, ◌⊎◌, inl, inr, some, true, false, get_elem?,
  length, All-get, arith, Bool-cases, ◌==ℤ◌, lt_of_get, get_elem?-set_self,
}
use task_spooler_plus.State.{
  Job, User, Server, Env, Jobstate, queued, running, pause, is_queued, send_runjob,
}
use task_spooler_plus.Outcome.{Outcome, ok, ◌>>=◌}
use task_spooler_plus.Jobs.{findjob, put_job, with_user, is_sleep, emit}
use task_spooler_plus.Jobs.Balance.{Moves, Untouched-Moves, Moves-trans, IsHeld}
use task_spooler_plus.Jobs.Accounting.{started, config_running-ready, started-Moves, started-state}
use task_spooler_plus.Scheduler.{
  s_mark_job_running, s_send_runjob, with_output, dispatch, resume_at, dequeue_user,
}
use task_spooler_plus.Scheduler.Sound.{
  IsSound, findjob-Distinct, work-set, weight, Advances, IsSound-ext, Grows-ext,
}
use task_spooler_plus.Scheduler.Limits.{
  Fits, dequeue-Moves, with_output-Moves, with_output-state, with_output-free, resume-started,
  Moves-IsSound, Moves-Grows,
}

send-found :
    (s : Server) (sock : ℤ) (i : ℕ) (p : Job) (id : ℤ)
    → findjob s id ≡ some (i, p)
    → s_send_runjob s sock id ≡ ok (emit (send_runjob sock id p.dependency_errorlevel) s)
unfolding s_send_runjob
send-found s sock i p id h = rw (h, s_send_runjob)

turn-lt : (a n : ℕ) {b : ℕ} → b < n → a % n < n
turn-lt a n h = omega arith

-- The RUNJOB message and the turn of the next user, after job `q` was put in the place of `p`.
finish_dispatch :
    (s t : Server) (uid : ℕ) (x : User) (i : ℕ) (p q : Job) (sock : ℤ)
    → IsSound s
    → get_elem? s.active_jobs i ≡ some p
    → get_elem? s.users uid ≡ some x
    → Fits uid x (s.max_slots -ℤ s.busy_slots) p
    → Moves s p t q
    → IsHeld q
    → (q.num_allocated ≡ pos 0) ⊎ (q.num_allocated ≡ p.num_slots)
    → p.num_allocated ≡ pos 0
    → weight q.state < weight p.state
    → (s' : Server) × ((s_send_runjob (put_job t i q) sock p.jobid >>= λ r.
          ok (record r { last_uid = (uid + 1) % length s.users }))
        ≡ ok s')
      × Advances s s'
finish_dispatch s t uid x i p q sock d g gx f m h c z w =
    let n : i < length t.active_jobs = rw m.same_active (lt_of_get s.active_jobs i p g) in
    let sound = Moves-IsSound s t p q i d g m h in
    let found : findjob (put_job t i q) p.jobid ≡ some (i, q) = rw (← m.same_id) (
      findjob-Distinct (put_job t i q) i q sound.distinct
        (get_elem?-set_self t.active_jobs i q n)) in
    let s' : Server =
      record (emit (send_runjob sock p.jobid q.dependency_errorlevel) (put_job t i q)) {
        last_uid = (uid + 1) % length s.users;
      } in
    let next_turn : s'.last_uid < length s'.users =
      rw m.same_count (turn-lt (uid + 1) (length s.users) d.turn) in
    (
      s',
      rw (send-found (put_job t i q) sock i q p.jobid found),
      record {
        sound = IsSound-ext (put_job t i q) s' refl refl refl next_turn sound;
        grows =
            Grows-ext s (put_job t i q) s' refl refl refl (Moves-Grows s t uid x p q i z c gx f m);
        less_work = rw m.same_active (omega (arith, work-set s.active_jobs i p q g));
      },
    )

idle_of_ready :
    (p : Job) → IsHeld p → (p.state ≡ queued) ⊎ (p.state ≡ pause) → p.num_allocated ≡ pos 0
idle_of_ready p h r = ground arith

weight-lt : (a b : Jobstate) → a ≡ running → (b ≡ queued) ⊎ (b ≡ pause) → weight a < weight b
weight-lt a b h (inl k) = rw (h, k) (omega arith)
weight-lt a b h (inr k) = rw (h, k) (omega arith)

mark-asleep :
    (e : Env) (s : Server) (i : ℕ) (p : Job) (id : ℤ)
    → findjob s id ≡ some (i, p)
    → (is_sleep e (with_output e p) ==ℤ pos 1) ≡ true
    → s_mark_job_running e s id ≡ ok (put_job s i (record (with_output e p) { state = pause }))
unfolding s_mark_job_running
mark-asleep e s i p id h a = rw (h, s_mark_job_running) (rw a)

mark-started :
    (e : Env) (s : Server) (i : ℕ) (p : Job) (id : ℤ)
    → findjob s id ≡ some (i, p)
    → (is_sleep e (with_output e p) ==ℤ pos 1) ≡ false
    → (with_output e p).state ≡ queued
    → let r = started e s (with_output e p) in s_mark_job_running e s id ≡ ok (put_job r.0 i r.1)
unfolding s_mark_job_running
mark-started e s i p id h a st =
    rw (h, s_mark_job_running) (rw a (rw (config_running-ready e s (with_output e p) (inl st))))

mark-put :
    (e : Env) (s : Server) (uid i : ℕ) (p : Job)
    → IsSound s
    → get_elem? s.active_jobs i ≡ some p
    → p.state ≡ queued
    → (t : Server) × (q : Job) × (s_mark_job_running e (with_user s uid dequeue_user) p.jobid
        ≡ ok (put_job t i q))
      × Moves s p t q
      × IsHeld q
      × ((q.num_allocated ≡ pos 0) ⊎ (q.num_allocated ≡ p.num_slots))
      × (weight q.state < weight p.state)
mark-put e s uid i p d g st =
    let s1 = with_user s uid dequeue_user in
    let found : findjob s1 p.jobid ≡ some (i, p) = findjob-Distinct s1 i p d.distinct g in
    let p' = with_output e p in
    let hp : IsHeld p = All-get IsHeld s.active_jobs i p d.accounted.each_job g in
    let m = Moves-trans (dequeue-Moves s uid p) (with_output-Moves e s1 p) in
    let z : p'.num_allocated ≡ pos 0 = with_output-free e p (idle_of_ready p hp (inl st)) in
    let st' : p'.state ≡ queued = with_output-state e p ∙ st in
    elim (Bool-cases (is_sleep e p' ==ℤ pos 1)) [
      | inl a ↦ (
        s1,
        record p' { state = pause },
        mark-asleep e s1 i p p.jobid found a,
        Moves-trans m
            (Untouched-Moves _ _ _ _ (refl, refl, refl, refl, refl, refl, refl, refl, refl)),
        z,
        inl z,
        rw st (omega arith),
      )
      | inr a ↦
          let t = started e s1 p' in
          let r = started-state e s1 p' in
          let m' = Moves-trans m (started-Moves e s1 p' z) in
          (
            t.0,
            t.1,
            mark-started e s1 i p p.jobid found a st',
            m',
            rw r.0 r.1,
            inr (r.1 ∙ m'.same_slots),
            weight-lt t.1.state p.state r.0 (inl st),
          )
    ]

-- The end of `dispatch`: the message and the turn of the next user.
abbrev send_and_turn : Server → Server → ℕ → Job → Outcome Server
send_and_turn s t uid p = s_send_runjob t p.client_socket p.jobid >>= λ r.
    ok (record r { last_uid = (uid + 1) % length s.users })

dispatch-queued :
    (e : Env) (s t : Server) (uid i : ℕ) (p : Job)
    → is_queued p.state ≡ true
    → s_mark_job_running e (with_user s uid dequeue_user) p.jobid ≡ ok t
    → dispatch e s uid i p ≡ send_and_turn s t uid p
unfolding dispatch
dispatch-queued e s t uid i p b h = rw (b, h)

dispatch-paused :
    (e : Env) (s t : Server) (uid i : ℕ) (p : Job)
    → is_queued p.state ≡ false
    → resume_at e s i p ≡ t
    → dispatch e s uid i p ≡ send_and_turn s t uid p
unfolding dispatch
dispatch-paused e s t uid i p b h = rw (b, h)

-- A dispatch of an eligible job in a sound state succeeds.
pub dispatch-Advances :
    (e : Env) (s : Server) (uid : ℕ) (x : User) (i : ℕ) (p : Job)
    → IsSound s
    → get_elem? s.users uid ≡ some x
    → get_elem? s.active_jobs i ≡ some p
    → Fits uid x (s.max_slots -ℤ s.busy_slots) p
    → (s' : Server) × (dispatch e s uid i p ≡ ok s') × Advances s s'
dispatch-Advances e s uid x i p d gx g f =
    let hp : IsHeld p = All-get IsHeld s.active_jobs i p d.accounted.each_job g in
    let z : p.num_allocated ≡ pos 0 = idle_of_ready p hp f.ready in
    elim f.ready [
      | inl st ↦
          let (t, q, eq, m, h, c, w) = mark-put e s uid i p d g st in
          let (s', eq', a) = finish_dispatch s t uid x i p q p.client_socket d g gx f m h c z w in
          (s', dispatch-queued e s (put_job t i q) uid i p (rw st) eq ∙ eq', a)
      | inr st ↦
          let t = started e s p in
          let r = started-state e s p in
          let m = started-Moves e s p z in
          let (s', eq', a) =
            finish_dispatch s t.0 uid x i p t.1 p.client_socket d g gx f m (rw r.0 r.1)
              (inr (r.1 ∙ m.same_slots)) z (weight-lt t.1.state p.state r.0 (inr st)) in
          (
            s',
            dispatch-paused e s (put_job t.0 i t.1) uid i p (rw st) (resume-started e s i p st)
                ∙ eq',
            a,
          )
    ]
