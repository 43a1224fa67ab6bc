-- ===== src/Dependencies.antt =====
-- jobs.c s_newjob: the request of a client, the job as it is before it is filled in, and the jobs that it
-- depends on. get_max_wall_time is that of runtime_limit.c. The strings that follow the request on the
-- socket stand in it here.
use task_spooler_plus.Base.{
  ℤ, pos, negsuc, ◌+ℤ◌, ◌==ℤ◌, leb_ℤ, ltb_ℤ, i64abs, String, List, [], ◌∷◌, ◌++◌, Option, none,
  some, Bool, false, ◌&&◌, not, if◌then◌else◌,
}
use task_spooler_plus.State.{queued, Job, Procinfo, Server, Env}
use task_spooler_plus.Outcome.{Outcome, ok, died, ◌>>=◌}
use task_spooler_plus.Jobs.{findjob_idx, find_finished_job}
use task_spooler_plus.Finish.{change_found}

-- The part of struct Msg for NEWJOB, with what is received after it.
pub record Request : Type 0 where
  pub jobid : ℤ
  pub num_slots : ℤ
  pub no_cpu_binding : Bool
  pub store_output : Bool
  pub should_keep_finished : Bool
  pub wall_time : ℤ
  pub schedule_time : ℤ
  pub command : String
  pub command_strip : ℤ
  pub path : Option String
  pub label : Option String
  pub env : Option String
  pub depend_on : List ℤ

abbrev pub default_max_wall_time : ℤ
default_max_wall_time = pos 604800

unfoldable pub get_max_wall_time : Env → ℤ
get_max_wall_time e = elim e.max_wall_time_var [
  | none ↦ default_max_wall_time
  | some v ↦ if ltb_ℤ (pos 0) v then v else default_max_wall_time
]

abbrev pub no_info : Procinfo
no_info = record {
  lines = [];
  enqueue_time = pos 0;
  start_time = pos 0;
  end_time = pos 0;
  pause_time = pos 0;
  pause_duration = pos 0;
  boot_time = pos 0;
}

-- A job as calloc gives it, where the result and the lists are zero.
abbrev pub blank_job : Job
blank_job = record {
  jobid = pos 0;
  command = "";
  work_dir = none;
  command_strip = pos 0;
  state = queued;
  result = record {
    errorlevel = pos 0;
    died_by_signal = false;
    signal = pos 0;
    user_sec = pos 0;
    system_sec = pos 0;
    real_sec = pos 0;
    skipped_flag = false;
  };
  output_filename = none;
  store_output = false;
  pid = pos 0;
  user = 0;
  wall_time = pos 0;
  schedule_time = pos 0;
  should_keep_finished = false;
  depend_on = [];
  notify_errorlevel_to = [];
  dependency_errorlevel = pos 0;
  label = none;
  info = no_info;
  num_slots = pos 0;
  num_allocated = pos 0;
  no_cpu_binding = false;
  client_socket = pos 0;
  health_state = 0;
}

-- The largest id above -1 in a list, but for that of one job.
unfoldable pub find_last_jobid : List Job → ℤ → ℤ → ℤ
find_last_jobid [] neglect last_jobid = last_jobid
find_last_jobid (p ∷ ps) neglect last_jobid =
    find_last_jobid ps neglect
      (if not (p.jobid ==ℤ neglect) && ltb_ℤ last_jobid p.jobid then p.jobid else last_jobid)

unfoldable pub find_last_jobid_in_queue : Server → ℤ → ℤ
find_last_jobid_in_queue s neglect = find_last_jobid s.active_jobs neglect (negsuc 0)

unfoldable pub find_last_stored : List Job → ℤ → ℤ
find_last_stored [] last_jobid = last_jobid
find_last_stored (p ∷ ps) last_jobid =
    find_last_stored ps (if ltb_ℤ last_jobid p.jobid then p.jobid else last_jobid)

unfoldable pub find_last_stored_jobid_finished : Server → ℤ
find_last_stored_jobid_finished s = find_last_stored s.finished_jobs (negsuc 0)

unfoldable pub add_notify_errorlevel_to : ℤ → Job → Job
add_notify_errorlevel_to id p = record p {
  notify_errorlevel_to = p.notify_errorlevel_to ++ id ∷ [];
}

abbrev pub add_depend : ℤ → ℤ → Job → Job
add_depend id k p = record p {
  depend_on = p.depend_on ++ id ∷ [];
  dependency_errorlevel = p.dependency_errorlevel +ℤ k;
}

-- A dependency on a job that may still be in the queue: it will tell its result. `k` is the error that
-- counts if the job is not there.
unfoldable pub depend_on_queued : Server → Job → ℤ → ℤ → Server × Job
depend_on_queued s p id k = elim (findjob_idx s id) [
  | some i ↦ (
    record s { active_jobs = change_found s.active_jobs id (add_notify_errorlevel_to p.jobid) },
    add_depend id (pos 0) p,
  )
  | none ↦ (s, add_depend id k p)
]

-- The error of a finished job, or 1.
unfoldable pub finished_error : Server → ℤ → ℤ
finished_error s id = elim (find_finished_job s id) [
  | none ↦ pos 1
  | some (i, q) ↦ i64abs q.result.errorlevel
]

-- The dependency -1: the last queued job, if it is newer than the last finished one.
unfoldable pub depend_on_last : Server → Job → Outcome (Server × Job)
depend_on_last s p =
    let queued_id = find_last_jobid_in_queue s p.jobid in
    let id = if ltb_ℤ queued_id s.last_finished_jobid then negsuc 0 else queued_id in
    if not (id ==ℤ negsuc 0)
    then ok (depend_on_queued s p id (pos 0))
    else let stored = find_last_stored_jobid_finished s in
      if ltb_ℤ s.last_finished_jobid stored
      then elim (find_finished_job s stored) [
        | none ↦ died
        | some (i, q) ↦ ok (s, add_depend stored (i64abs q.result.errorlevel) p)
      ]
      else ok (s, add_depend stored (i64abs s.last_errorlevel) p)

unfoldable pub add_dependencies : List ℤ → Server → Job → Outcome (Server × Job)
add_dependencies [] s p = ok (s, p)
add_dependencies (d ∷ ds) s p =
    (if leb_ℤ p.jobid d
      then ok (s, p)
      else if d ==ℤ negsuc 0
      then depend_on_last s p
      else ok (depend_on_queued s p d (finished_error s d)))
    >>= λ r. add_dependencies ds r.0 r.1
