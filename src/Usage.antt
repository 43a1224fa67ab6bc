-- ===== src/Usage.antt =====
-- jobs.c: the wall times (check_timeout, s_check_timeout), the health of running jobs
-- (s_check_running_health) and the count of the slots in use (s_update_slots_usage).
pub mod Recount
pub mod Balance
pub mod Burial
pub mod Spared
pub mod Timeouts
use task_spooler_plus.Base.{
  ℕ, zero, suc, ℤ, pos, negsuc, ◌-◌, ◌+ℤ◌, ◌-ℤ◌, ◌==ℤ◌, ◌==◌, leb_ℤ, ltb_ℤ, ltb, i64abs, String,
  List, [], ◌∷◌, ◌++◌, map, Option, none, some, Bool, true, false, ◌||◌, ◌&&◌, not, if◌then◌else◌,
  get_elem?, length, remove_at,
}
use task_spooler_plus.State.{
  Job, Result, Procinfo, User, Server, Env, default_result, is_running, is_pause, is_abnormal,
  abnormal, movebottom_db,
}
use task_spooler_plus.Outcome.{Outcome, ok, died, ◌>>=◌}
use task_spooler_plus.Jobs.{
  emit, put_job, for_each, change_user, free_cores, s_relegate_job, get_work_time_by_job,
  s_check_running_pid,
}
use task_spooler_plus.Notify.{check_notify_list}
use task_spooler_plus.Finish.{job_finished}
use task_spooler_plus.Scheduler.{next_run_job}

-- Whether a job has run for longer than its wall time: the tests of `check_timeout`.
unfoldable pub is_timed_out : Env → Job → Bool
is_timed_out e p =
    let work_time = get_work_time_by_job e p in
    not (p.pid ==ℤ pos 0) && not (leb_ℤ work_time (i64abs p.wall_time) || ltb_ℤ work_time (pos 3))

-- The first loop of `s_check_timeout`, over the places below `n` from the last: the jobs that are
-- timed out leave the active jobs, in the order in which they are met.
unfoldable pub collect_timed_out : ℕ → Env → Server → List Job → Server × List Job
collect_timed_out zero e s out_jobs = (s, out_jobs)
collect_timed_out (suc i) e s out_jobs =
    let next : Server × List Job = elim (get_elem? s.active_jobs i) [
      | none ↦ (s, out_jobs)
      | some p ↦
          if is_running p.state && is_timed_out e p
          then (let (t, q) = s_relegate_job e s p in
              (record t { active_jobs = remove_at t.active_jobs i }, out_jobs ++ q ∷ []))
          else (s, out_jobs)
    ] in
    collect_timed_out i e next.0 next.1

unfoldable pub push_back : List Job → Server → Server
push_back [] s = s
push_back (p ∷ ps) s =
    push_back ps (emit (movebottom_db p.jobid) (record s { active_jobs = s.active_jobs ++ p ∷ [] }))

unfoldable pub s_check_timeout : Env → Server → Server × Bool
s_check_timeout e s =
    let (t, out_jobs) = collect_timed_out (length s.active_jobs) e s [] in
    (push_back out_jobs t, ltb 0 (length out_jobs))

unfoldable pub output_is_empty : Env → Job → Bool
output_is_empty e p = elim p.output_filename [
  | none ↦ false
  | some f ↦ elim (e.file_size f) [ none ↦ false | some n ↦ n == 0 ]
]

-- The tests that let `s_check_running_health` look at a job.
unfoldable pub is_checked_now : Env → Job → Bool
is_checked_now e p =
    is_running p.state
    && p.health_state == 0
    && ltb_ℤ (pos 0) p.pid
    && leb_ℤ (pos 300) (e.now -ℤ p.info.start_time)

unfoldable pub check_health : Env → Server → ℕ → Job → Server
check_health e s i p =
    if is_checked_now e p
    then (if output_is_empty e p && e.child_count p.pid == 0
        then (let (t, q) = free_cores s (record p { state = abnormal }) in put_job t i q)
        else put_job s i (record p { health_state = 1 }))
    else s

unfoldable pub s_check_running_health : Env → Server → Server
s_check_running_health e s = for_each (length s.active_jobs) 0 (check_health e) s

unfoldable pub is_dead : Env → Job → Bool
is_dead e p =
    (is_running p.state || is_pause p.state || is_abnormal p.state)
    && ltb_ℤ (pos 0) p.pid
    && not (s_check_running_pid e p.pid)

-- What is recorded of a job whose process is gone.
unfoldable pub dead_result : Env → Job → Result
dead_result e p = record default_result {
  errorlevel = negsuc 0;
  died_by_signal = true;
  signal = pos 9;
  real_sec = get_work_time_by_job e p;
}

unfoldable pub bury : Env → Server → Job → Outcome Server
bury e s p = job_finished e s (dead_result e p) p.jobid >>= λ t. check_notify_list t p.jobid

unfoldable pub bury_dead : ℕ → Env → Server → Outcome Server
bury_dead zero e s = ok s
bury_dead (suc i) e s =
    elim (get_elem? s.active_jobs i) [
      | none ↦ died
      | some p ↦ if is_dead e p then bury e s p else ok s
    ]
    >>= λ t. bury_dead i e t

abbrev no_counts : User → User
no_counts u = record u { busy = pos 0; jobs = pos 0; queue = pos 0 }

abbrev count_running : ℤ → User → User
count_running k u = record u { busy = u.busy +ℤ k; jobs = u.jobs +ℤ pos 1 }

abbrev count_queued : User → User
count_queued u = record u { queue = u.queue +ℤ pos 1 }

-- The loop that counts: the users, and the slots that running jobs use.
unfoldable pub count_jobs : List Job → List User → ℤ → List User × ℤ
count_jobs [] us k = (us, k)
count_jobs (p ∷ ps) us k =
    let next : List User × ℤ =
      if is_running p.state
      then (change_user us p.user (count_running p.num_slots), k +ℤ p.num_slots)
      else (change_user us p.user count_queued, k) in
    count_jobs ps next.0 next.1

unfoldable pub recount : Server → Server
recount s =
    let (us, k) = count_jobs s.active_jobs (map no_counts s.users) (pos 0) in
    record s { users = us; busy_slots = k }

-- The slots in use are those that the last recount found, and are returned.
unfoldable pub s_update_slots_usage : Env → Server → Outcome (Server × ℤ)
s_update_slots_usage e s =
    let (s1, timeout_flag) = s_check_timeout e s in
    bury_dead (length s1.active_jobs) e s1 >>= λ s2.
    let s3 = recount s2 in
    if timeout_flag
    then (next_run_job e s3 >>= λ r. ok (r.0, s3.busy_slots))
    else ok (s3, s3.busy_slots)
