-- ===== src/Life.antt =====
-- The life of the jobs of jobs.c and server_user.c as steps of the server, in any order: the operations
-- that move slots between the jobs and the counters.
use task_spooler_plus.Base.{
  ℕ, ℤ, pos, ◌≡◌, subst, inl, inr, some, Bool-cases, All-get, get_elem?, arith, ◌||◌,
}
use task_spooler_plus.State.{Job, User, Result, Server, Env, is_pause, is_queued}
use task_spooler_plus.Outcome.{ok, Yields}
use task_spooler_plus.Jobs.{config_running, put_job, for_each, with_user}
use task_spooler_plus.Jobs.Balance.{Accounted, IsHeld, Moves-Accounted}
use task_spooler_plus.Jobs.Accounting.{config_running-Moves}
use task_spooler_plus.Finish.{job_finished}
use task_spooler_plus.Notify.{check_notify_list}
use task_spooler_plus.Notify.Accounts.{check_notify_list-Accounted}
use task_spooler_plus.Dependencies.{Request}
use task_spooler_plus.Newjob.{place_job}
use task_spooler_plus.Newjob.Accounts.{place_job-Accounted}
use task_spooler_plus.Usage.{s_check_timeout, s_check_running_health, bury_dead, recount}
use task_spooler_plus.Usage.Burial.{bury_dead-Accounted}
use task_spooler_plus.Finish.Accounts.{ends-Accounted}
use task_spooler_plus.Usage.Balance.{
  s_check_timeout-Accounted, s_check_running_health-Accounted, recount-Accounted,
}
use task_spooler_plus.Users.{suspend_one, lock_user, s_resume_user, s_hold_job, s_requeue_job}
use task_spooler_plus.Users.Balance.{
  suspended-Accounted, s_resume_user-Accounted, s_requeue_job-Accounted,
}
use task_spooler_plus.Users.Holding.{s_hold_job-Accounted}

-- One step. A job starts or resumes by config_running, whoever calls it.
pub data Step : Server → Server → Type 0 where
  starts :
      {s s' : Server} {p p' : Job} (e : Env) (i : ℕ)
      → get_elem? s.active_jobs i ≡ some p
      → config_running e s p ≡ some (s', p')
      → Step s (put_job s' i p')
  ends : {s t : Server} (e : Env) (r : Result) (id : ℤ) → job_finished e s r id ≡ ok t → Step s t
  is_told : {s t : Server} (id : ℤ) → check_notify_list s id ≡ ok t → Step s t
  are_buried : {s t : Server} (e : Env) (n : ℕ) → bury_dead n e s ≡ ok t → Step s t
  is_placed :
      {s t : Server} (e : Env) (sock : ℤ) (m : Request) (u : ℕ) (id : ℤ)
      → place_job e sock m u s ≡ ok (t, id)
      → Step s t
  times_out : {s : Server} (e : Env) → Step s (s_check_timeout e s).0
  turns_abnormal : {s : Server} (e : Env) → Step s (s_check_running_health e s)
  is_counted : {s : Server} → Step s (recount s)
  is_suspended :
      {s : Server} (e : Env) (sock : ℤ) (u n : ℕ)
      → Step s (for_each n 0 (suspend_one e sock u) (with_user s u lock_user))
  is_resumed : {s : Server} (e : Env) (sock : ℤ) (u : ℕ) → Step s (s_resume_user e s sock u)
  is_held :
      {s : Server} (e : Env) (sock id : ℤ) (u : ℕ) (x : User) → Step s (s_hold_job e s sock id u x)
  is_requeued :
      {s : Server} (e : Env) (sock id : ℤ) (u : ℕ) (x : User)
      → Step s (s_requeue_job e s sock id u x)

-- Steps in any number and order.
pub data Reaches : Server → Server → Type 0 where
  here : {s : Server} → Reaches s s
  then_step : {s t r : Server} → Reaches s t → Step t r → Reaches s r

waits :
    (e : Env) (s s' : Server) (p p' : Job)
    → config_running e s p ≡ some (s', p')
    → IsHeld p
    → p.num_allocated ≡ pos 0
unfolding config_running
waits e s s' p p' c h = elim (Bool-cases (is_pause p.state || is_queued p.state)) [
  | inl t ↦ ground arith
  | inr t ↦ absurd (ground arith)
]

starts-Accounted :
    (e : Env) (i : ℕ) (s s' : Server) (p p' : Job)
    → get_elem? s.active_jobs i ≡ some p
    → config_running e s p ≡ some (s', p')
    → Accounted s
    → Accounted (put_job s' i p')
starts-Accounted e i s s' p p' g c a =
    let z = waits e s s' p p' c (All-get IsHeld s.active_jobs i p a.each_job g) in
    let (m, r, h) = config_running-Moves e s s' p p' z c in
    Moves-Accounted s s' p p' i a g m (rw r h)

told-Accounted : (id : ℤ) (s t : Server) → check_notify_list s id ≡ ok t → Accounted s → Accounted t
told-Accounted id s t h a = subst (Yields Accounted) h (check_notify_list-Accounted s id a)

buried-Accounted :
    (e : Env) (n : ℕ) (s t : Server) → bury_dead n e s ≡ ok t → Accounted s → Accounted t
buried-Accounted e n s t h a = subst (Yields Accounted) h (bury_dead-Accounted n e s a)

placed-Accounted :
    (e : Env) (sock : ℤ) (m : Request) (u : ℕ) (s t : Server) (id : ℤ)
    → place_job e sock m u s ≡ ok (t, id)
    → Accounted s
    → Accounted t
placed-Accounted e sock m u s t id h a =
    subst (Yields (λ (r : Server × ℤ). Accounted r.0)) h (place_job-Accounted e sock m u s a)

Step-Accounted : {s t : Server} → Step s t → Accounted s → Accounted t
Step-Accounted (starts {s} {s'} {p} {p'} e i g c) a = starts-Accounted e i s s' p p' g c a
Step-Accounted (ends {s} {t} e r id h) a = ends-Accounted e s t r id h a
Step-Accounted (is_told {s} {t} id h) a = told-Accounted id s t h a
Step-Accounted (are_buried {s} {t} e n h) a = buried-Accounted e n s t h a
Step-Accounted (is_placed {s} {t} e sock m u id h) a = placed-Accounted e sock m u s t id h a
Step-Accounted (times_out {s} e) a = s_check_timeout-Accounted e s a
Step-Accounted (turns_abnormal {s} e) a = s_check_running_health-Accounted e s a
Step-Accounted (is_counted {s}) a = recount-Accounted s a.each_job
Step-Accounted (is_suspended {s} e sock u n) a = suspended-Accounted e s sock u n a
Step-Accounted (is_resumed {s} e sock u) a = s_resume_user-Accounted e s sock u a
Step-Accounted (is_held {s} e sock id u x) a = s_hold_job-Accounted e s sock id u x a
Step-Accounted (is_requeued {s} e sock id u x) a = s_requeue_job-Accounted e s sock id u x a

-- From balanced counters, any sequence of steps in which jobs are added, start, end, time out,
-- turn abnormal, are held, requeued, suspended or resumed, are removed when their process is gone,
-- and are counted again, and in which waiting clients are answered, leaves the counters of the
-- server and of each user balanced with the slots that the jobs hold.
pub Reaches-Accounted : (s t : Server) → Reaches s t → Accounted s → Accounted t
Reaches-Accounted s t here a = a
Reaches-Accounted s t (then_step {t = r} h k) a = Step-Accounted k (Reaches-Accounted s r h a)
