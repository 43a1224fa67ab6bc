-- ===== src/Samples/Lifecycle.antt =====
-- The theorems on the end of a job, the recount, the time limits, the users and new jobs, on concrete
-- servers.
use task_spooler_plus.Base.{
  ℕ, ℤ, pos, negsuc, ◌+ℤ◌, ◌-ℤ◌, ◌≤ℤ◌, ◌-◌, ◌≡◌, refl, List, [], ◌∷◌, none, some, true, false, not,
  map, arith, parts, All, get_elem?, length, if◌then◌else◌, ltb_ℤ, ◌==◌, i64abs, neg,
}
use task_spooler_plus.State.{Job, Server, Env, default_result, locked, pause}
use task_spooler_plus.Outcome.{Outcome, ok, died, endless, Yields}
use task_spooler_plus.Jobs.{
  find_idx, findjob_idx, findjob, for_each, with_user, pause_job_config, get_work_time_by_job,
  free_cores,
}
use task_spooler_plus.Jobs.Balance.{Accounted}
use task_spooler_plus.Jobs.Clock.{paused-work_time, paused_then_run}
use task_spooler_plus.Finish.{
  job_finished, new_finished_job, get_max_finished_jobs, finish_at, change_found, change_job,
  notify_all, notify_errorlevel, with_end, with_result,
}
use task_spooler_plus.Finish.Ending.{job_finished-Ended, Ended, new_finished_job-bound}
use task_spooler_plus.Usage.{recount, s_check_timeout}
use task_spooler_plus.Usage.Recount.{Exact, recount-Exact}
use task_spooler_plus.Usage.Balance.{recount-Accounted}
use task_spooler_plus.Users.{
  suspend_one, lock_user, s_requeue_job, s_lock_server, s_check_locker, s_lock_queue,
  s_unlock_queue,
}
use task_spooler_plus.Users.Suspension.{suspended-IsStill, IsStill, s_unlock_queue-s_lock_queue}
use task_spooler_plus.Users.Locker.{s_lock_server-lease}
use task_spooler_plus.Newjob.{place_job}
use task_spooler_plus.Dependencies.{Request}
use task_spooler_plus.Newjob.Fresh.{IsAnswer, place_job-IsFresh}
use task_spooler_plus.Newjob.Ids.{IsFresh}
use task_spooler_plus.Samples.{
  quiet_env, two_queued, two_queued-IsSound, one_running, one_running-Accounted, running_job,
  job_of, alice,
}
use task_spooler_plus.Restart.{s_read_sqlite}
use task_spooler_plus.Restart.Ids.{s_read_sqlite-IsFresh}
use task_spooler_plus.Life.{here, then_step, is_requeued, times_out, Reaches-Accounted}
use task_spooler_plus.Usage.Timeouts.{IsInTime, Outlived, s_check_timeout-IsInTime}

ending : ℕ
unfolding find_idx findjob_idx findjob job_finished finish_at free_cores notify_errorlevel
    notify_all change_job change_found with_end with_result new_finished_job get_max_finished_jobs
    i64abs neg ◌-ℤ◌ ◌+ℤ◌
ending = 0

abbrev ids_and_slots : Outcome Server → List ℤ × List ℤ × ℤ
ids_and_slots died = ([], [], pos 0)
ids_and_slots endless = ([], [], pos 0)
ids_and_slots (ok s) = (
  map (λ (p : Job). p.jobid) s.active_jobs,
  map (λ (p : Job). p.jobid) s.finished_jobs,
  s.busy_slots,
)

running-ends :
    ids_and_slots (job_finished quiet_env one_running default_result (pos 1000))
    ≡ (pos 1001 ∷ [], pos 1000 ∷ [], pos 0)
unfolding ending default_result
running-ends = refl

job_finished-Ended_example :
    (s' : Server) × (job_finished quiet_env one_running default_result (pos 1000) ≡ ok s')
    × Ended one_running 0 running_job s'
unfolding find_idx findjob_idx findjob
job_finished-Ended_example =
    job_finished-Ended quiet_env one_running default_result (pos 1000) 0 running_job
      one_running-Accounted (omega arith) refl

new_finished_job-bound_example :
    (pos (length (new_finished_job quiet_env one_running running_job).finished_jobs)
      ≤ℤ get_max_finished_jobs quiet_env)
    × (get_elem?
          (new_finished_job quiet_env one_running running_job).finished_jobs
          (length (new_finished_job quiet_env one_running running_job).finished_jobs - 1)
        ≡ some running_job)
new_finished_job-bound_example =
    new_finished_job-bound quiet_env one_running running_job none_finished
  where
    none_finished : pos (length one_running.finished_jobs) ≤ℤ get_max_finished_jobs quiet_env
    none_finished = (unfold get_max_finished_jobs i64abs neg in omega arith)

recount-Exact_example : Exact (recount (record one_running { busy_slots = pos 77 }))
recount-Exact_example = recount-Exact (record one_running { busy_slots = pos 77 })

recount-Accounted_example : Accounted (recount (record one_running { busy_slots = pos 77 }))
recount-Accounted_example =
    recount-Accounted (record one_running { busy_slots = pos 77 }) one_running-Accounted.each_job

-- One second after the wall time of the running job.
abbrev late : Env
late = record quiet_env { now = pos 700000 }

suspended-IsStill_example :
    All
      (IsStill 1)
      (for_each 2 0
        (suspend_one quiet_env (pos 5) 1)
        (with_user one_running 1 lock_user)).active_jobs
suspended-IsStill_example = suspended-IsStill quiet_env one_running (pos 5) 1

abbrev locked_server : Outcome Server → Server
locked_server died = two_queued
locked_server endless = two_queued
locked_server (ok s) = s

s_lock_server-lease_example :
    (s_check_locker late
      (locked_server (s_lock_server quiet_env two_queued (pos 5) 1 (pos 1000)))
      0).1
    ≡ (if ltb_ℤ (pos 30) (late.now -ℤ quiet_env.now) then false else not (1 == 0))
unfolding s_lock_server
s_lock_server-lease_example =
    s_lock_server-lease quiet_env late two_queued
      (locked_server (s_lock_server quiet_env two_queued (pos 5) 1 (pos 1000))) (pos 5) 1 0
      (pos 1000) (λ e. omega (arith, parts e)) refl refl

s_unlock_queue-s_lock_queue_example :
    ((s_unlock_queue
        (s_lock_queue two_queued 0 (job_of (pos 1000) 1 (pos 2)))
        0
        (record (job_of (pos 1000) 1 (pos 2)) { state = locked })).active_jobs
      ≡ two_queued.active_jobs)
    × ((s_unlock_queue
          (s_lock_queue two_queued 0 (job_of (pos 1000) 1 (pos 2)))
          0
          (record (job_of (pos 1000) 1 (pos 2)) { state = locked })).users
        ≡ two_queued.users)
s_unlock_queue-s_lock_queue_example =
    s_unlock_queue-s_lock_queue two_queued 0 (job_of (pos 1000) 1 (pos 2)) refl refl

paused-work_time_example :
    (get_work_time_by_job late
        (record (pause_job_config quiet_env one_running running_job).1 { state = pause })
      ≡ get_work_time_by_job quiet_env running_job)
    × (get_work_time_by_job late (paused_then_run quiet_env late one_running running_job)
        ≡ get_work_time_by_job quiet_env running_job +ℤ (late.now -ℤ late.now))
paused-work_time_example =
    paused-work_time quiet_env late late one_running running_job refl refl
      (λ e. omega (arith, parts e))

abbrev request : Request
request = record {
  jobid = pos 0;
  num_slots = pos 1;
  no_cpu_binding = false;
  store_output = true;
  should_keep_finished = true;
  wall_time = pos 60;
  schedule_time = pos 0;
  command = "ls";
  command_strip = pos 0;
  path = none;
  label = none;
  env = none;
  depend_on = negsuc 0 ∷ [];
}

two_queued-IsFresh : IsFresh two_queued
two_queued-IsFresh = record {
  distinct = two_queued-IsSound.distinct;
  below = (omega arith, (omega arith, tt));
}

place_job-IsFresh_example : Yields IsAnswer (place_job quiet_env (pos 8) request 1 two_queued)
place_job-IsFresh_example =
    place_job-IsFresh quiet_env (pos 8) request 1 two_queued two_queued-IsFresh

abbrev empty_server : Server
empty_server = record two_queued { active_jobs = [] }

s_read_sqlite-IsFresh_example : IsFresh (
    s_read_sqlite quiet_env
      (some running_job ∷ none ∷ some (job_of (pos 1001) 1 (pos 2)) ∷ [])
      []
      empty_server)
s_read_sqlite-IsFresh_example =
    s_read_sqlite-IsFresh quiet_env
      (some running_job ∷ none ∷ some (job_of (pos 1001) 1 (pos 2)) ∷ []) [] empty_server refl
      ((tt, ((λ e. omega (arith, parts e)), tt)), (tt, tt))

-- The running job is requeued, and then the limits are checked.
Reaches-Accounted_example :
    Accounted
      (s_check_timeout late (s_requeue_job quiet_env one_running (pos 5) (pos 1000) 1 alice)).0
Reaches-Accounted_example =
    Reaches-Accounted one_running
      (s_check_timeout late (s_requeue_job quiet_env one_running (pos 5) (pos 1000) 1 alice)).0
      (then_step (then_step here (is_requeued quiet_env (pos 5) (pos 1000) 1 alice))
        (times_out late))
      one_running-Accounted

-- The job that waits stays, and the late one is set aside.
s_check_timeout-IsInTime_example :
    All (IsInTime late) (s_check_timeout late one_running).0.active_jobs
    × All (Outlived late (s_check_timeout late one_running).0.active_jobs) one_running.active_jobs
s_check_timeout-IsInTime_example = s_check_timeout-IsInTime late one_running
