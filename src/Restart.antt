-- ===== src/Restart.antt =====
-- jobs.c: jobs that come back from the database (s_add_job, s_read_sqlite), jobs whose client reports
-- that they run (s_process_runjob_ok, with info.c's pinfo_set_start_time_check), paused jobs that must
-- stay frozen (s_check_holdon), and the ids of jobs (s_init_jobids, s_set_jobids, s_send_last_id). The
-- rows of the database are arguments.
pub mod Ids
use task_spooler_plus.Base.{
  ℕ, ℤ, pos, ◌+ℤ◌, ◌-ℤ◌, ◌==ℤ◌, ltb_ℤ, String, List, [], ◌∷◌, ◌++◌, Option, none, some, Bool, ◌||◌,
  ◌&&◌, not, if◌then◌else◌, length,
}
use task_spooler_plus.State.{
  pause, Job, User, Server, Env, is_running, is_queued, is_locked, is_pause, delete_db, jobs_table,
  cgroups_create, cgroups_freeze, write_logfile, insert_or_replace_db, set_jobids_db, send_last_id,
}
use task_spooler_plus.Outcome.{Outcome, ok, died}
use task_spooler_plus.Jobs.{
  findjob, emit, put_job, with_user, for_each, is_sleep, s_check_running_pid,
}

unfoldable pub s_init_jobids : Server → ℤ → ℤ → Server
s_init_jobids s i actual = record s {
  jobids = if ltb_ℤ (pos 0) actual then actual else if ltb_ℤ (pos 0) i then i else pos 1000;
}

unfoldable pub s_set_jobids : Server → ℤ → Server
s_set_jobids s i = emit (set_jobids_db i) (record s { jobids = i })

unfoldable pub s_send_last_id : Server → ℤ → Server
s_send_last_id s sock = emit (send_last_id sock (s.jobids -ℤ pos 1)) s

-- A restored job joins the queue without a client, and the next id is above its own.
unfoldable pub restore : Server → Job → Server
restore s j = record s {
  active_jobs = s.active_jobs ++ record j { client_socket = pos 0 } ∷ [];
  jobids = if ltb_ℤ j.jobid s.jobids then s.jobids else j.jobid +ℤ pos 1;
}

abbrev pub as_paused : Env → Job → Job
as_paused e j = record j {
  state = pause;
  info = if i.pause_time ==ℤ pos 0 then record i { pause_time = e.now } else i;
}
  where
    open j use {info as i}

abbrev pub add_queued : User → User
add_queued x = record x { queue = x.queue +ℤ pos 1 }

abbrev pub is_alive : Env → Job → Bool
is_alive e j = ltb_ℤ (pos 0) j.pid && s_check_running_pid e j.pid

unfoldable pub s_add_job : Env → Server → Job → Server
s_add_job e s j =
    if is_running j.state
    then (if ltb_ℤ (pos 0) j.info.pause_time && is_alive e j
        then restore s (as_paused e j)
        else if is_alive e j
        then restore s j
        else emit (delete_db j.jobid jobs_table) s)
    else if is_queued j.state || is_locked j.state
    then restore (with_user s j.user add_queued) j
    else if is_pause j.state
    then restore s (as_paused e j)
    else s

-- A row that cannot be read is `none`.
unfoldable pub add_jobs : Env → List (Option Job) → Server → Server
add_jobs e [] s = s
add_jobs e (none ∷ rows) s = add_jobs e rows s
add_jobs e (some j ∷ rows) s = add_jobs e rows (s_add_job e s j)

unfoldable pub add_finished : List (Option Job) → Server → Server
add_finished [] s = s
add_finished (none ∷ rows) s = add_finished rows s
add_finished (some j ∷ rows) s =
    add_finished rows (record s { finished_jobs = s.finished_jobs ++ j ∷ [] })

unfoldable pub s_read_sqlite : Env → List (Option Job) → List (Option Job) → Server → Server
s_read_sqlite e jobs ended s = add_finished ended (add_jobs e jobs s)

-- One turn of the loop of `s_check_holdon`.
unfoldable pub hold_on : Env → Server → ℕ → Job → Server
hold_on e s i p =
    if not (p.pid ==ℤ pos 0) && is_pause p.state && is_sleep e p ==ℤ pos 0
    then emit (cgroups_freeze p.jobid) s
    else s

unfoldable pub s_check_holdon : Env → Server → Server
s_check_holdon e s = for_each (length s.active_jobs) 0 (hold_on e) s

-- `oname` is none for NULL and for the empty string.
unfoldable pub started_job : Env → Option String → ℤ → Job → Job
started_job e oname pid p = record p {
  pid = pid;
  output_filename = elim oname [ none ↦ p.output_filename | some f ↦ some f ];
  info = if i.start_time ==ℤ pos 0 then record i { start_time = e.now; end_time = pos 0 } else i;
}
  where
    open p use {info as i}

unfoldable pub s_process_runjob_ok : Env → Server → ℤ → Option String → ℤ → Outcome Server
s_process_runjob_ok e s id oname pid = elim (findjob s id) [
  | none ↦ died
  | some (i, p) ↦
      if is_pause p.state
      then ok s
      else if not (is_running p.state)
      then died
      else (let t = put_job (emit (cgroups_create p.jobid) s) i (started_job e oname pid p) in
          if ltb_ℤ (pos 0) pid
          then ok (emit (insert_or_replace_db p.jobid jobs_table) (emit (write_logfile p.jobid) t))
          else ok t)
]
