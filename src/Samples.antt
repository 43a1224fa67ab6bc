-- ===== src/Samples.antt =====
-- Concrete servers on which the theorems are applied.
pub mod Dispatch
pub mod Lifecycle
pub mod Orders
pub mod Waiting
pub mod Vectors
pub mod Topology
pub mod Cpuset
pub mod Requests
pub mod UserFile
use task_spooler_plus.Base.{
  ℕ, zero, suc, ℤ, pos, negsuc, ◌≡◌, refl, List, [], ◌∷◌, Option, none, some, Bool, true, false,
  String, get_elem?, sum, arith, int_laws, ◌==◌, if◌then◌else◌, ◌+ℤ◌, ap, length, parts,
}
use task_spooler_plus.State.{
  Jobstate, queued, running, pause, finished, Job, User, Server, Env, Procinfo, Result,
  default_result, no_process, signalled,
}
use task_spooler_plus.Jobs.Balance.{Accounted, held, held_by}
use task_spooler_plus.Scheduler.Sound.{IsSound}

-- A system at second 1000 on which no process is frozen, and all live.
abbrev pub quiet_env : Env
quiet_env = record {
  now = pos 1000;
  boot_offset = pos 1700000000;
  is_frozen = λ id. false;
  is_stopped = λ pid. some false;
  probe = λ pid. signalled;
  cpu_time = λ pid. pos 0;
  child_count = λ pid. 1;
  file_size = λ name. none;
  stdout_of = λ pid. none;
  insert_succeeds = λ id. true;
  maxfinished_var = some (pos 2);
  max_wall_time_var = none;
  user_file = none;
  getpwnam = λ name. none;
}

abbrev pub no_times : Procinfo
no_times = record {
  lines = [];
  enqueue_time = pos 0;
  start_time = pos 0;
  end_time = pos 0;
  pause_time = pos 0;
  pause_duration = pos 0;
  boot_time = pos 0;
}

abbrev pub job_of : ℤ → ℕ → ℤ → Job
job_of id u slots = record {
  jobid = id;
  command = "sleep 30";
  work_dir = none;
  command_strip = pos 0;
  state = queued;
  result = record {
    errorlevel = pos 0;
    died_by_signal = false;
    signal = pos 0;
    user_sec = pos 0;
    system_sec = pos 0;
    real_sec = pos 0;
    skipped_flag = false;
  };
  output_filename = none;
  store_output = true;
  pid = pos 0;
  user = u;
  wall_time = pos 604800;
  schedule_time = pos 0;
  should_keep_finished = true;
  depend_on = [];
  notify_errorlevel_to = [];
  dependency_errorlevel = pos 0;
  label = none;
  info = no_times;
  num_slots = slots;
  num_allocated = pos 0;
  no_cpu_binding = false;
  client_socket = pos 7;
  health_state = 0;
}

abbrev pub root_user : User
root_user = record {
  name = "Root";
  uid = pos 0;
  max_slots = pos 0;
  busy = pos 0;
  jobs = pos 0;
  queue = pos 0;
  is_locked_user = false;
}

abbrev pub alice : User
alice = record {
  name = "alice";
  uid = pos 1000;
  max_slots = pos 4;
  busy = pos 0;
  jobs = pos 0;
  queue = pos 2;
  is_locked_user = false;
}

-- Two jobs of alice wait, of two slots each; the server has three.
abbrev pub two_queued : Server
two_queued = record {
  active_jobs = job_of (pos 1000) 1 (pos 2) ∷ job_of (pos 1001) 1 (pos 2) ∷ [];
  finished_jobs = [];
  users = root_user ∷ alice ∷ [];
  notifies = [];
  busy_slots = pos 0;
  max_slots = pos 3;
  jobids = pos 1002;
  last_errorlevel = pos 0;
  last_finished_jobid = pos 0;
  max_jobs = pos 990;
  user_locker = none;
  locker_time = pos 0;
  last_uid = 0;
  out = [];
}

two_queued-each :
    (u : ℕ) (x : User)
    → get_elem? two_queued.users u ≡ some x
    → x.busy ≡ sum (held_by u) two_queued.active_jobs
unfolding sum ◌+ℤ◌
two_queued-each zero x g = ap (λ (u : User). u.busy) (let e : x ≡ root_user = cc in e)
two_queued-each (suc zero) x g = ap (λ (u : User). u.busy) (let e : x ≡ alice = cc in e)
two_queued-each (suc (suc u)) x g = cc

pub two_queued-IsSound : IsSound two_queued
unfolding sum ◌+ℤ◌
two_queued-IsSound = record {
  accounted = record { total = refl; each = two_queued-each; each_job = (refl, (refl, tt)) };
  distinct = (((λ e. omega (arith, parts e)), tt), (tt, tt));
  turn = omega arith;
}

-- A job of alice that runs on two slots as process 42, since second 100.
abbrev pub running_job : Job
running_job = record (job_of (pos 1000) 1 (pos 2)) {
  state = running;
  pid = pos 42;
  num_allocated = pos 2;
  info = record no_times { start_time = pos 100 };
}

-- The first job of alice runs, the second waits, and a client on socket 9 waits for the first.
abbrev pub one_running : Server
one_running = record two_queued {
  active_jobs = running_job ∷ job_of (pos 1001) 1 (pos 2) ∷ [];
  users = root_user ∷ record alice { busy = pos 2; jobs = pos 1; queue = pos 1 } ∷ [];
  notifies = record { socket = pos 9; jobid = pos 1000 } ∷ [];
  busy_slots = pos 2;
}

one_running-each :
    (u : ℕ) (x : User)
    → get_elem? one_running.users u ≡ some x
    → x.busy ≡ sum (held_by u) one_running.active_jobs
unfolding sum ◌+ℤ◌
one_running-each zero x g = ap (λ (u : User). u.busy) (let e : x ≡ root_user = cc in e)
one_running-each (suc zero) x g =
    ap (λ (u : User). u.busy)
      (let e : x ≡ record alice { busy = pos 2; jobs = pos 1; queue = pos 1 } = cc in e)
one_running-each (suc (suc u)) x g = cc

pub one_running-Accounted : Accounted one_running
unfolding sum ◌+ℤ◌
one_running-Accounted = record {
  total = refl;
  each = one_running-each;
  each_job = (refl, (refl, tt));
}
