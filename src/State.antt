-- ===== src/State.antt =====
-- jobs.h, user.h, notify.c and the globals of jobs.c and server.c: the data of the server.
-- A `struct Job *` of a vector is the job at its place in the list; a `struct User *` is the index
-- of the user in `users_vec`, as two users are equal when they stand in one place. The C integers
-- are unbounded here, since their overflow is undefined in C.
use task_spooler_plus.Base.{ℕ, ℤ, pos, List, Option, Bool, true, false, String}

-- enum Jobstate
pub data Jobstate : Type 0 where
  queued running abnormal pause finished skipped holding_client wait delink locked : Jobstate

abbrev pub is_queued : Jobstate → Bool
is_queued queued = true
is_queued _ = false

abbrev pub is_running : Jobstate → Bool
is_running running = true
is_running _ = false

abbrev pub is_abnormal : Jobstate → Bool
is_abnormal abnormal = true
is_abnormal _ = false

abbrev pub is_pause : Jobstate → Bool
is_pause pause = true
is_pause _ = false

abbrev pub is_finished : Jobstate → Bool
is_finished finished = true
is_finished _ = false

abbrev pub is_skipped : Jobstate → Bool
is_skipped skipped = true
is_skipped _ = false

abbrev pub is_holding_client : Jobstate → Bool
is_holding_client holding_client = true
is_holding_client _ = false

abbrev pub is_wait : Jobstate → Bool
is_wait wait = true
is_wait _ = false

abbrev pub is_delink : Jobstate → Bool
is_delink delink = true
is_delink _ = false

abbrev pub is_locked : Jobstate → Bool
is_locked locked = true
is_locked _ = false

-- struct Result. The flags of C are Booleans.
pub record Result : Type 0 where
  pub errorlevel : ℤ
  pub died_by_signal : Bool
  pub signal : ℤ
  pub user_sec : ℤ
  pub system_sec : ℤ
  pub real_sec : ℤ
  pub skipped_flag : Bool

-- main.c `default_result`
unfoldable pub default_result : Result
default_result = record {
  errorlevel = pos 0;
  died_by_signal = false;
  signal = pos 0;
  user_sec = pos 0;
  system_sec = pos 0;
  real_sec = pos 0;
  skipped_flag = false;
}

-- What `pinfo_addinfo` is called with: the text of struct Procinfo, a line at a time.
pub data InfoLine : Type 0 where
  environment : String → InfoLine
  killed_by_signal : ℤ → InfoLine
  exit_code : ℤ → InfoLine

-- struct Procinfo. The buffer (ptr, nchars, allocchars) is the list of its lines.
pub record Procinfo : Type 0 where
  pub lines : List InfoLine
  pub enqueue_time : ℤ
  pub start_time : ℤ
  pub end_time : ℤ
  pub pause_time : ℤ
  pub pause_duration : ℤ
  pub boot_time : ℤ

-- struct Job. A pointer that may be NULL is an option; an array and its size are one list.
pub record Job : Type 0 where
  pub jobid : ℤ
  pub command : String
  pub work_dir : Option String
  pub command_strip : ℤ
  pub state : Jobstate
  pub result : Result
  pub output_filename : Option String
  pub store_output : Bool
  pub pid : ℤ
  pub user : ℕ
  pub wall_time : ℤ
  pub schedule_time : ℤ
  pub should_keep_finished : Bool
  pub depend_on : List ℤ
  pub notify_errorlevel_to : List ℤ
  pub dependency_errorlevel : ℤ
  pub label : Option String
  pub info : Procinfo
  pub num_slots : ℤ
  pub num_allocated : ℤ
  pub no_cpu_binding : Bool
  pub client_socket : ℤ
  pub health_state : ℕ

-- struct User
pub record User : Type 0 where
  pub name : String
  pub uid : ℤ
  pub max_slots : ℤ
  pub busy : ℤ
  pub jobs : ℤ
  pub queue : ℤ
  pub is_locked_user : Bool

-- struct Notify of notify.c
pub record Notify : Type 0 where
  pub socket : ℤ
  pub jobid : ℤ

-- The two tables of the database.
pub data Table : Type 0 where
  jobs_table finished_table : Table

-- The columns that `update_field_int64` writes.
pub data Field : Type 0 where
  wall_time_field pause_time_field pause_duration_field : Field

-- What the server does to the world: messages, database writes, control groups.
pub data Effect : Type 0 where
  send_runjob : ℤ → ℤ → ℤ → Effect
  send_newjob_ok : ℤ → ℤ → Effect
  send_waitjob_ok : ℤ → ℤ → Effect
  send_removejob_ok : ℤ → Effect
  send_removejob_nok : ℤ → Effect
  send_urgent_ok : ℤ → Effect
  send_swap_jobs_ok : ℤ → Effect
  send_list_line : ℤ → Effect
  send_count_running : ℤ → ℕ → Effect
  send_pid : ℤ → ℤ → Effect
  send_last_id : ℤ → ℤ → Effect
  close_connection : ℤ → Effect
  kill_process : ℤ → Effect
  send_newjob_nok : ℤ → Effect
  send_reconnect_ok : ℤ → ℤ → Effect
  send_error_info : ℤ → ℤ → Effect
  send_endjob_ok : ℤ → ℤ → Effect
  send_find_pid : ℤ → ℤ → Effect
  send_answer : ℤ → Effect
  update_field : Field → ℤ → ℤ → Effect
  insert_db : ℤ → Table → Effect
  insert_or_replace_db : ℤ → Table → Effect
  delete_db : ℤ → Table → Effect
  set_state_db : ℤ → Jobstate → Effect
  set_jobids_db : ℤ → Effect
  movetop_db : ℤ → Effect
  movebottom_db : ℤ → Effect
  swap_db : ℤ → ℤ → Effect
  cgroups_freeze : ℤ → Effect
  cgroups_thaw : ℤ → Effect
  cgroups_clean : ℤ → Effect
  cgroups_create : ℤ → Effect
  write_logfile : ℤ → Effect

-- The globals of jobs.c, user.c, notify.c and server_user.c. `out` has the latest effect first.
pub record Server : Type 0 where
  pub active_jobs : List Job
  pub finished_jobs : List Job
  pub users : List User
  pub notifies : List Notify
  pub busy_slots : ℤ
  pub max_slots : ℤ
  pub jobids : ℤ
  pub last_errorlevel : ℤ
  pub last_finished_jobid : ℤ
  pub max_jobs : ℤ
  pub user_locker : Option ℕ
  pub locker_time : ℤ
  pub last_uid : ℕ
  pub out : List Effect

-- What `kill (pid, 0)` answers.
pub data Probe : Type 0 where
  signalled not_permitted no_process : Probe

-- What the operating system answers during one operation of the server, where the clock and the
-- processes are read once: the seconds of CLOCK_MONOTONIC, how far `time` is ahead of them, whether
-- the control group of a job is
-- frozen, the letter of /proc/<pid>/stat (none if it cannot be read), `kill (pid, 0)`, the used
-- processor seconds of a process (-1 if unknown), the number of its children, the size of a regular
-- file, the target of /proc/<pid>/fd/1, whether an insertion into the database succeeds, and the
-- numbers in the environment variables TS_MAXFINISHED and TS_MAX_WALL_TIME, if they are set. The file
-- of the users is its lines, each the list of its bytes; `getpwnam` gives for the bytes of a name the
-- same name as a text, and the id of the user.
pub record Env : Type 0 where
  pub now : ℤ
  pub boot_offset : ℤ
  pub is_frozen : ℤ → Bool
  pub is_stopped : ℤ → Option Bool
  pub probe : ℤ → Probe
  pub cpu_time : ℤ → ℤ
  pub child_count : ℤ → ℕ
  pub file_size : String → Option ℕ
  pub stdout_of : ℤ → Option String
  pub insert_succeeds : ℤ → Bool
  pub maxfinished_var : Option ℤ
  pub max_wall_time_var : Option ℤ
  pub user_file : Option (List (List ℕ))
  pub getpwnam : List ℕ → Option (String × ℤ)
