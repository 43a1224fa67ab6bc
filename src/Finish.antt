-- ===== src/Finish.antt =====
-- jobs.c: the end of a job (notify_errorlevel, new_finished_job, job_finished) and its removal by a
-- client (s_remove_job).
pub mod Notices
pub mod Ending
pub mod Recording
pub mod Recorded
pub mod Accounts
use mathlib.Core.Option
use task_spooler_plus.Base.{
  ℕ, zero, suc, ℤ, pos, negsuc, ◌-◌, ◌+ℤ◌, ◌-ℤ◌, ◌==ℤ◌, ◌==◌, ltb_ℤ, leb_ℤ, i64abs, List, [], ◌∷◌,
  ◌++◌, Option, none, some, Bool, true, false, ◌||◌, ◌&&◌, not, if◌then◌else◌, get_elem?, set,
  length, remove_at,
}
use task_spooler_plus.State.{
  Job, Result, Procinfo, InfoLine, killed_by_signal, exit_code, Server, Env, finished, skipped,
  is_running, is_pause, is_abnormal, insert_db, delete_db, cgroups_clean, jobs_table,
  finished_table, send_removejob_ok, send_removejob_nok,
}
use task_spooler_plus.Outcome.{Outcome, ok, died, ◌>>=◌}
use task_spooler_plus.Jobs.{findjob_idx, find_finished_idx, findjob, put_job, emit, free_cores}
use task_spooler_plus.Notify.{check_notify_list}

-- A write through the pointer that a search of a list returned.
unfoldable pub change_found : List Job → ℤ → (Job → Job) → List Job
change_found [] id f = []
change_found (p ∷ ps) id f = if p.jobid ==ℤ id then f p ∷ ps else p ∷ change_found ps id f

-- A write through the pointer that `get_job` returned.
unfoldable pub change_job : Server → ℤ → (Job → Job) → Server
change_job s id f = elim (findjob_idx s id) [
  | some i ↦ record s { active_jobs = change_found s.active_jobs id f }
  | none ↦ record s { finished_jobs = change_found s.finished_jobs id f }
]

abbrev pub add_errorlevel : ℤ → Job → Job
add_errorlevel k p = record p { dependency_errorlevel = p.dependency_errorlevel +ℤ k }

unfoldable pub notify_all : List ℤ → ℤ → Server → Server
notify_all [] k s = s
notify_all (id ∷ ids) k s = notify_all ids k (change_job s id (add_errorlevel k))

unfoldable pub notify_errorlevel : Server → Job → Server
notify_errorlevel s p =
    notify_all p.notify_errorlevel_to (i64abs p.result.errorlevel)
      (record s { last_errorlevel = p.result.errorlevel })

unfoldable pub get_max_finished_jobs : Env → ℤ
get_max_finished_jobs e = elim e.maxfinished_var [
  | none ↦ pos 1000
  | some v ↦ if ltb_ℤ (i64abs v) (pos 1) then pos 1000 else i64abs v
]

unfoldable pub new_finished_job : Env → Server → Job → Server
new_finished_job e s j =
    let room =
      if leb_ℤ (get_max_finished_jobs e) (pos (length s.finished_jobs))
      then remove_at s.finished_jobs 0
      else s.finished_jobs in
    let t = emit (insert_db j.jobid finished_table) (record s { finished_jobs = room ++ j ∷ [] }) in
    let r = if e.insert_succeeds j.jobid then emit (delete_db j.jobid jobs_table) t else t in
    emit (cgroups_clean j.jobid) r

-- pinfo_set_end_time, the times of a job that took no time, and the line on the exit status.
unfoldable pub with_end : Env → Result → Job → Job
with_end e r p =
    let times =
      if r.real_sec ==ℤ pos 0
      then record i { end_time = e.now; enqueue_time = e.now; start_time = e.now }
      else record i { end_time = e.now } in
    let line = if r.died_by_signal then killed_by_signal r.signal else exit_code r.errorlevel in
    record p { info = record times { lines = i.lines ++ line ∷ [] } }
  where
    open p use {info as i}

unfoldable pub with_result : Result → Job → Job
with_result r p = record p { state = if r.skipped_flag then skipped else finished; result = r }

-- `job_finished` once the job is found at place `i`.
unfoldable pub finish_at : Env → Server → Result → ℕ → Job → Outcome Server
finish_at e s r i p =
    let (s1, p1) = free_cores s p in
    let p2 = with_result r p1 in
    let s2 = notify_errorlevel (record (put_job s1 i p2) { last_finished_jobid = p2.jobid }) p2 in
    elim (get_elem? s2.active_jobs i) [
      | none ↦ died
      | some p3 ↦ ok (
          new_finished_job e (record s2 { active_jobs = remove_at s2.active_jobs i })
            (with_end e r p3))
    ]

unfoldable pub job_finished : Env → Server → Result → ℤ → Outcome Server
job_finished e s r id =
    if ltb_ℤ s.busy_slots (pos 0)
    then died
    else elim (findjob s id) [ none ↦ died | some (i, p) ↦ finish_at e s r i p ]

-- Where `s_remove_job` finds its job.
pub data Place : Type 0 where
  in_active : ℕ → Place
  in_finished : ℕ → Place

abbrev at_last : List Job → (ℕ → Place) → Option (Place × Job)
at_last ps f = Option.map (λ p. (f (length ps - 1), p)) (get_elem? ps (length ps - 1))

abbrev at_found : List Job → Option ℕ → (ℕ → Place) → Option (Place × Job)
at_found ps none f = none
at_found ps (some i) f = Option.map (λ p. (f i, p)) (get_elem? ps i)

unfoldable pub find_removable : Server → ℤ → Option (Place × Job)
find_removable s id =
    if id ==ℤ negsuc 0
    then elim (at_last s.active_jobs in_active) [
      | some r ↦ some r
      | none ↦ at_last s.finished_jobs in_finished
    ]
    else elim (at_found s.active_jobs (findjob_idx s id) in_active) [
      | some r ↦ some r
      | none ↦ at_found s.finished_jobs (find_finished_idx s id) in_finished
    ]

unfoldable pub place_put : Server → Place → Job → Server
place_put s (in_active i) p = put_job s i p
place_put s (in_finished i) p = record s { finished_jobs = set s.finished_jobs i p }
