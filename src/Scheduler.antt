-- ===== src/Scheduler.antt =====
-- jobs.c: the dispatch of jobs (next_run_job, s_mark_job_running, s_send_runjob) and the waking of
-- clients that wait for room in the queue.
pub mod Sound
pub mod Wake
pub mod Limits
pub mod Dispatch
pub mod Rounds
pub mod Loop
use mathlib.Core.Option
use task_spooler_plus.Base.{
  ℕ, zero, suc, ℤ, pos, ◌+◌, ◌*◌, ◌%◌, ◌-ℤ◌, ltb_ℤ, leb_ℤ, ◌==ℤ◌, ◌==◌, i64abs, List, [], ◌∷◌,
  Option, none, some, Bool, true, false, ◌||◌, ◌&&◌, not, if◌then◌else◌, get_elem?, length,
}
use task_spooler_plus.State.{
  Job, User, Server, Env, queued, pause, is_queued, is_running, is_pause, is_holding_client,
  send_runjob, send_newjob_ok,
}
use task_spooler_plus.Outcome.{Outcome, ok, died, endless, ◌>>=◌}
use task_spooler_plus.Jobs.{findjob, get_job, emit, put_job, with_user, is_sleep, config_running}

unfoldable pub find_holding : List Job → Option (ℕ × Job)
find_holding [] = none
find_holding (p ∷ ps) =
    if is_holding_client p.state
    then some (0, p)
    else Option.map (λ (r : ℕ × Job). (suc r.0, r.1)) (find_holding ps)

-- `none` is the return value -1.
unfoldable pub wake_hold_client : Server → Option (Server × ℤ)
unfolding find_holding
wake_hold_client s =
    Option.map (λ (r : ℕ × Job). (put_job s r.0 (record (r.1) { state = queued }), r.1.jobid))
      (find_holding s.active_jobs)

-- The answer to the client of a job that was woken.
unfoldable pub newjob_ok_to : Server → ℤ → Server
newjob_ok_to s id = elim (findjob s id) [
  | none ↦ s
  | some (i, p) ↦ emit (send_newjob_ok p.client_socket id) s
]

-- The loop, with fuel for the rounds that are left.
unfoldable pub wake_loop : ℕ → Server → Server
wake_loop zero s = s
wake_loop (suc fuel) s = elim (wake_hold_client s) [
  | none ↦ s
  | some (s', id) ↦ wake_loop fuel (newjob_ok_to s' id)
]

unfoldable pub wake_all_held_clients : Server → Server
wake_all_held_clients s = wake_loop (length s.active_jobs) s

-- The file that a job writes to, if it is not known yet.
unfoldable pub with_output : Env → Job → Job
with_output e p = elim p.output_filename [
  | none ↦ record p { output_filename = e.stdout_of p.pid }
  | some f ↦ p
]

unfoldable pub s_mark_job_running : Env → Server → ℤ → Outcome Server
unfolding with_output
s_mark_job_running e s id = elim (findjob s id) [
  | none ↦ died
  | some (i, p) ↦
      let p' = with_output e p in
      if is_sleep e p' ==ℤ pos 1
      then ok (put_job s i (record p' { state = pause }))
      else elim (config_running e s p') [ none ↦ died | some (s', q) ↦ ok (put_job s' i q) ]
]

unfoldable pub s_send_runjob : Server → ℤ → ℤ → Outcome Server
s_send_runjob s sock id = elim (findjob s id) [
  | none ↦ died
  | some (i, p) ↦ ok (emit (send_runjob sock id p.dependency_errorlevel) s)
]

-- Whether no dependency is queued or running.
unfoldable pub deps_ready : Server → List ℤ → Bool
deps_ready s [] = true
deps_ready s (d ∷ ds) =
    elim (get_job s d) [ none ↦ true | some q ↦ not (is_queued q.state || is_running q.state) ]
    && deps_ready s ds

abbrev fits : User → ℤ → Job → Bool
fits x free p = leb_ℤ p.num_slots free && leb_ℤ p.num_slots (x.max_slots -ℤ x.busy)

unfoldable pub can_start : Env → Server → User → ℤ → Job → Bool
can_start e s x free p =
    deps_ready s p.depend_on
    && not (ltb_ℤ (pos 0) p.schedule_time && ltb_ℤ e.now p.schedule_time)
    && ltb_ℤ (pos 0) p.client_socket
    && fits x free p

unfoldable pub can_resume : Env → User → ℤ → Job → Bool
can_resume e x free p =
    ltb_ℤ p.wall_time (pos 0) && ltb_ℤ (e.cpu_time p.pid) (i64abs p.wall_time) && fits x free p

-- The tests that the inner loop of `next_run_job` makes of one job for the user `uid`.
unfoldable pub is_eligible : Env → Server → ℕ → User → ℤ → Job → Bool
is_eligible e s uid x free p =
    p.user == uid
    && (if is_queued p.state
        then can_start e s x free p
        else is_pause p.state && can_resume e x free p)

-- The inner loop, up to the job that it dispatches.
unfoldable pub find_eligible : Env → Server → ℕ → User → ℤ → List Job → Option (ℕ × Job)
find_eligible e s uid x free [] = none
find_eligible e s uid x free (p ∷ ps) =
    if is_eligible e s uid x free p
    then some (0, p)
    else Option.map (λ (r : ℕ × Job). (suc r.0, r.1)) (find_eligible e s uid x free ps)

abbrev dequeue_user : User → User
dequeue_user x = record x { queue = x.queue -ℤ pos 1 }

-- `config_running` as the PAUSE branch calls it, its result not looked at.
unfoldable pub resume_at : Env → Server → ℕ → Job → Server
resume_at e s i p = elim (config_running e s p) [ none ↦ s | some (s', q) ↦ put_job s' i q ]

-- The body of the branch for a queued job, or of the one for a paused job.
unfoldable pub dispatch : Env → Server → ℕ → ℕ → Job → Outcome Server
dispatch e s uid i p =
    (if is_queued p.state
      then s_mark_job_running e (with_user s uid dequeue_user) p.jobid
      else ok (resume_at e s i p))
    >>= λ t. s_send_runjob t p.client_socket p.jobid >>= λ r.
        ok (record r { last_uid = (uid + 1) % length s.users })

-- The loop over the users: `k` users are left, and `found` jobs are dispatched so far.
unfoldable pub round : Env → ℕ → ℕ → Server → ℕ → Outcome (Server × ℕ)
round e zero i s found = ok (s, found)
round e (suc k) i s found =
    let uid = (s.last_uid + i) % length s.users in
    let free = s.max_slots -ℤ s.busy_slots in
    let skip = round e k (i + 1) s found in
    elim (get_elem? s.users uid) [
      | none ↦ died
      | some x ↦
          if x.queue ==ℤ pos 0
          then skip
          else if leb_ℤ free (pos 0)
          then ok (s, found)
          else elim (find_eligible e s uid x free s.active_jobs) [
            | none ↦ skip
            | some (j, p) ↦ dispatch e s uid j p >>= λ t. round e k (i + 1) t (found + 1)
          ]
    ]

-- The outer loop, with fuel for the rounds that are left. It is endless when they are used up.
unfoldable pub run_loop : ℕ → Env → Server → ℕ → Outcome (Server × ℕ)
run_loop zero e s n = endless
run_loop (suc fuel) e s n =
    let one_round = round e (length s.users) 0 s 0 >>= λ r.
    let more = run_loop fuel e (wake_all_held_clients r.0) (n + r.1) in
    if r.1 == 0 then ok (r.0, n) else more in
    if length s.active_jobs == 0 then ok (s, n) else one_round

-- A job is dispatched at most twice and woken at most once, so each takes part in three rounds.
unfoldable pub next_run_job : Env → Server → Outcome (Server × ℕ)
next_run_job e s = run_loop (3 * length s.active_jobs + 1) e s 0
