-- ===== src/Jobs.antt =====
-- jobs.c: finding a job, and the slots of one job (free_cores, config_running, pausing).
-- Built without TS_CPU_BIND. An operation on a `struct Job *` takes the job and returns it; its
-- caller writes it back to its place. get_work_time_by_job is that of runtime_limit.c, is_sleep that
-- of list.c.
pub mod Lookup
pub mod Balance
pub mod Accounting
pub mod Alike
pub mod Loops
pub mod Clock
use mathlib.Core.Option
use task_spooler_plus.Base.{
  ℕ, zero, suc, ℤ, pos, negsuc, ◌+ℤ◌, ◌-ℤ◌, ltb_ℤ, leb_ℤ, ◌==ℤ◌, i64abs, neg, List, [], ◌∷◌, Option,
  none, some, Bool, true, false, ◌||◌, if◌then◌else◌, get_elem?, set,
}
use task_spooler_plus.State.{
  Job, User, Server, Env, Effect, Procinfo, Jobstate, pause, running, is_queued, is_running,
  is_pause, is_finished, update_field, wall_time_field, pause_time_field, pause_duration_field,
  cgroups_freeze, cgroups_thaw, Probe, signalled, not_permitted, no_process,
}

unfoldable pub find_idx : List Job → ℤ → Option ℕ
find_idx [] id = none
find_idx (p ∷ ps) id = if p.jobid ==ℤ id then some 0 else Option.map suc (find_idx ps id)

unfoldable pub findjob_idx : Server → ℤ → Option ℕ
unfolding find_idx
findjob_idx s id = find_idx s.active_jobs id

unfoldable pub find_finished_idx : Server → ℤ → Option ℕ
unfolding find_idx
find_finished_idx s id = find_idx s.finished_jobs id

abbrev at_index : List Job → Option ℕ → Option (ℕ × Job)
at_index ps none = none
at_index ps (some i) = Option.map (λ p. (i, p)) (get_elem? ps i)

-- The job and its place in the active jobs.
unfoldable pub findjob : Server → ℤ → Option (ℕ × Job)
unfolding findjob_idx
findjob s id = at_index s.active_jobs (findjob_idx s id)

unfoldable pub find_finished_job : Server → ℤ → Option (ℕ × Job)
unfolding find_finished_idx
find_finished_job s id = at_index s.finished_jobs (find_finished_idx s id)

unfoldable pub get_job : Server → ℤ → Option Job
get_job s id = elim (findjob s id) [
  | some (i, p) ↦ some p
  | none ↦ Option.map (λ (q : ℕ × Job). q.1) (find_finished_job s id)
]

abbrev pub emit : Effect → Server → Server
emit x s = record s { out = x ∷ s.out }

-- A write through the pointer of an active job.
abbrev pub put_job : Server → ℕ → Job → Server
put_job s i p = record s { active_jobs = set s.active_jobs i p }

-- A loop `for (i ..., n times)` over the places of the active jobs.
unfoldable pub for_each : ℕ → ℕ → (Server → ℕ → Job → Server) → Server → Server
for_each zero i f s = s
for_each (suc n) i f s =
    let next : Server = elim (get_elem? s.active_jobs i) [ none ↦ s | some p ↦ f s i p ] in
    for_each n (suc i) f next

-- A write through the pointer of a user.
abbrev pub change_user : List User → ℕ → (User → User) → List User
change_user [] k f = []
change_user (u ∷ us) zero f = f u ∷ us
change_user (u ∷ us) (suc k) f = u ∷ change_user us k f

abbrev pub with_user : Server → ℕ → (User → User) → Server
with_user s k f = record s { users = change_user s.users k f }

-- list.c `is_sleep`: -1 if nothing is known, else whether the process is stopped.
unfoldable pub is_sleep : Env → Job → ℤ
is_sleep e p =
    if leb_ℤ p.pid (pos 0)
    then negsuc 0
    else if e.is_frozen p.jobid
    then pos 1
    else elim (e.is_stopped p.pid) [ none ↦ negsuc 0 | some true ↦ pos 1 | some false ↦ pos 0 ]

unfoldable pub get_work_time_by_job : Env → Job → ℤ
get_work_time_by_job e p =
    if is_finished p.state
    then p.info.end_time -ℤ p.info.start_time -ℤ p.info.pause_duration
    else (if is_pause p.state then p.info.pause_time else e.now)
      -ℤ (p.info.start_time +ℤ p.info.pause_duration)

-- Whether `s_check_running_pid` returns 1.
unfoldable pub s_check_running_pid : Env → ℤ → Bool
s_check_running_pid e pid =
    if leb_ℤ pid (pos 0)
    then false
    else elim (e.probe pid) [ signalled ↦ true | not_permitted ↦ true | no_process ↦ false ]

unfoldable pub pause_job_config : Env → Server → Job → Server × Job
pause_job_config e s p =
    if p.info.pause_time ==ℤ pos 0
    then (
      emit (update_field pause_time_field p.jobid e.now) s,
      record p { info = record info { pause_time = e.now } },
    )
    else (s, p)
  where
    open p use {info}

unfoldable pub rerun_job_config : Env → Server → Job → Server × Job
rerun_job_config e s p =
    if p.info.pause_time ==ℤ pos 0
    then (s, p)
    else let d = p.info.pause_duration +ℤ (e.now -ℤ p.info.pause_time) in
      (
        emit (update_field pause_time_field p.jobid (pos 0))
            (emit (update_field pause_duration_field p.jobid d) s),
        record p { info = record info { pause_time = pos 0; pause_duration = d } },
      )
  where
    open p use {info}

abbrev release_user : ℤ → User → User
release_user k u = record u { busy = u.busy -ℤ k; jobs = u.jobs -ℤ pos 1 }

abbrev occupy_user : ℤ → User → User
occupy_user k u = record u { busy = u.busy +ℤ k; jobs = u.jobs +ℤ pos 1 }

unfoldable pub free_cores : Server → Job → Server × Job
free_cores s p = if p.num_allocated ==ℤ pos 0 then (s, p) else (
  record s {
    users = change_user s.users p.user (release_user p.num_slots);
    busy_slots = s.busy_slots -ℤ p.num_slots;
  },
  record p { num_allocated = pos 0 },
)

-- Thawing, the first effect of `config_running`.
unfoldable pub thaw_sleeper : Env → Server → Job → Server
thaw_sleeper e s p = if is_sleep e p ==ℤ pos 1 then emit (cgroups_thaw p.jobid) s else s

-- Taking the slots: the rest of `config_running` up to the pause times.
unfoldable pub occupy : Server → Job → Server × Job
occupy s p = (
  emit (update_field wall_time_field p.jobid (i64abs p.wall_time)) (record s {
    users = change_user s.users p.user (occupy_user p.num_slots);
    busy_slots = s.busy_slots +ℤ p.num_slots;
  }),
  record p { num_allocated = p.num_slots; state = running; wall_time = i64abs p.wall_time },
)

-- `none` is the return value 1, with nothing changed.
unfoldable pub config_running : Env → Server → Job → Option (Server × Job)
config_running e s p =
    if is_pause p.state || is_queued p.state
    then (let (s', p') = occupy (thaw_sleeper e s p) p in some (rerun_job_config e s' p'))
    else none

unfoldable pub safe_pause_job : Env → Server → Job → Server × Job
safe_pause_job e s p =
    let (s', p') = free_cores (emit (cgroups_freeze p.jobid) s) p in pause_job_config e s' p'

abbrev pub day : ℤ
day = pos 86400

unfoldable pub s_relegate_job : Env → Server → Job → Server × Job
s_relegate_job e s p =
    let (s', p') = if is_running p.state then safe_pause_job e s p else (s, p) in
    let w = neg (i64abs p'.wall_time) -ℤ day in
    (emit (update_field wall_time_field p'.jobid w) s', record p' { wall_time = w; state = pause })
