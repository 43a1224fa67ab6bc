-- ===== src/Newjob.antt =====
-- jobs.c s_newjob: a client's request for a new job, or for one that was restored and waits for its
-- client. pinfo_set_enqueue_time is that of info.c.
pub mod Ids
pub mod Fresh
pub mod Balance
pub mod Accounts
use mathlib.Core.Option
use task_spooler_plus.Base.{
  ℕ, zero, suc, ℤ, pos, negsuc, ◌+◌, ◌+ℤ◌, ◌==ℤ◌, ◌==◌, leb_ℤ, ltb_ℤ, i64abs, String, List, [], ◌∷◌,
  ◌++◌, Option, none, some, Bool, true, false, ◌||◌, ◌&&◌, not, if◌then◌else◌, get_elem?, set,
  length, remove_at,
}
use task_spooler_plus.State.{
  Jobstate, queued, holding_client, Job, Result, default_result, Procinfo, InfoLine, environment,
  User, Server, Env, is_delink, is_wait, is_locked, is_queued, send_list_line, insert_db,
  jobs_table, set_jobids_db,
}
use task_spooler_plus.Outcome.{Outcome, ok, died, ◌>>=◌}
use task_spooler_plus.Jobs.{findjob_idx, findjob, find_finished_job, emit, put_job, with_user}
use task_spooler_plus.Finish.{change_found}
use task_spooler_plus.Usage.{s_update_slots_usage}
use task_spooler_plus.Dependencies.{
  Request, default_max_wall_time, get_max_wall_time, no_info, blank_job, find_last_jobid,
  find_last_jobid_in_queue, find_last_stored, find_last_stored_jobid_finished,
  add_notify_errorlevel_to, add_depend, depend_on_queued, finished_error, depend_on_last,
  add_dependencies,
}

-- The place and the job of a request: a restored job that waits for its client, or a new one at the end.
-- `none` is a job that is there and not available.
unfoldable pub newjobptr : Server → ℤ → Server × ℕ × Job
newjobptr s id =
    let new_id = if id ==ℤ pos 0 then s.jobids else id in
    let next =
      if id ==ℤ pos 0
      then s.jobids +ℤ pos 1
      else if ltb_ℤ id s.jobids
      then s.jobids
      else id +ℤ pos 1 in
    let st =
      if ltb_ℤ (pos (suc (length s.active_jobs))) s.max_jobs then queued else holding_client in
    let p : Job = record blank_job { jobid = new_id; state = st } in
    (record s { active_jobs = s.active_jobs ++ p ∷ []; jobids = next }, length s.active_jobs, p)

unfoldable pub find_or_create : Server → ℤ → Option (Server × ℕ × Job)
find_or_create s id = if id ==ℤ pos 0 then some (newjobptr s id) else elim (findjob s id) [
  | none ↦ some (newjobptr s id)
  | some (i, p) ↦
      if is_delink p.state || is_wait p.state || is_locked p.state then some (s, i, p) else none
]

-- Who asks, and for how many slots.
unfoldable pub with_owner : ℤ → Request → ℕ → Job → Job
with_owner sock m u p = record p {
  user = u;
  client_socket = sock;
  num_slots = m.num_slots;
  no_cpu_binding = m.no_cpu_binding;
}

-- What is written to the job before its dependencies are read.
unfoldable pub with_request : Env → Request → Job → Job
with_request e m p = record p {
  store_output = m.store_output;
  should_keep_finished = m.should_keep_finished;
  notify_errorlevel_to = [];
  depend_on = [];
  wall_time =
      if is_delink p.state
      then p.wall_time
      else if ltb_ℤ m.wall_time (get_max_wall_time e)
      then m.wall_time
      else get_max_wall_time e;
  schedule_time = if is_wait p.state || is_delink p.state then p.schedule_time else m.schedule_time;
  dependency_errorlevel = pos 0;
}

unfoldable pub enqueued_info : Env → Procinfo
enqueued_info e = record no_info { enqueue_time = e.now; boot_time = e.boot_offset }

abbrev with_line : Option String → Procinfo → Procinfo
with_line none i = i
with_line (some t) i = record i { lines = i.lines ++ environment t ∷ [] }

-- What is written to the job after its dependencies were read.
unfoldable pub with_texts : Env → Request → Job → Job
with_texts e m p =
    let kept =
      if is_delink p.state || is_wait p.state || is_locked p.state
      then p.info
      else enqueued_info e in
    record p {
      info = with_line m.env kept;
      command = m.command;
      command_strip = m.command_strip;
      work_dir = m.path;
      label = m.label;
    }

abbrev add_queued : User → User
add_queued x = record x { queue = x.queue +ℤ pos 1 }

-- The state of the job, its row in the database, and the queue of its user.
unfoldable pub enter_queue : Server → ℕ → Job → Server
enter_queue s i p =
    if is_wait p.state
    then with_user (put_job s i (record p { state = queued })) p.user add_queued
    else if is_locked p.state
    then put_job s i p
    else with_user (emit (insert_db p.jobid jobs_table) (put_job s i p)) p.user add_queued

unfoldable pub fill_job : Env → Request → Server → ℕ → Job → Outcome (Server × ℤ)
fill_job e m s i p = add_dependencies m.depend_on s (with_request e m p) >>= λ r.
    let t = enter_queue r.0 i (with_texts e m r.1) in
    ok (emit (set_jobids_db t.jobids) t, r.1.jobid)

abbrev pub asks_too_much : User → Job → Bool
asks_too_much x p = ltb_ℤ (pos 0) x.max_slots && ltb_ℤ x.max_slots p.num_slots

-- `s_newjob` on its job at place `i`: the job is refused if it needs more slots than its user has.
unfoldable pub take_place : Env → ℤ → Request → ℕ → Server → ℕ → Job → Outcome (Server × ℤ)
take_place e sock m u t i p = elim (get_elem? t.users u) [
  | none ↦ died
  | some x ↦
      let q = with_owner sock m u p in
      if asks_too_much x q
      then ok (
        emit (send_list_line sock) (record t { active_jobs = remove_at t.active_jobs i }),
        negsuc 0,
      )
      else fill_job e m (put_job t i q) i q
]

-- The id of the job, or -1.
unfoldable pub place_job : Env → ℤ → Request → ℕ → Server → Outcome (Server × ℤ)
place_job e sock m u s = elim (find_or_create s m.jobid) [
  | none ↦ ok (emit (send_list_line sock) s, negsuc 0)
  | some (t, i, p) ↦ take_place e sock m u t i p
]

unfoldable pub s_newjob : Env → Server → ℤ → Request → ℕ → Outcome (Server × ℤ)
s_newjob e s sock m u = s_update_slots_usage e s >>= λ r. place_job e sock m u r.0
