-- ===== src/Removal.antt =====
-- jobs.c s_remove_job and s_delete_job, s_cleanup_orphan_queued, s_clear_finished: jobs that are
-- taken out of the queue or off the finished jobs.
pub mod Clearing
pub mod Waiters
pub mod Waiting
pub mod Answering
pub mod Answered
use task_spooler_plus.Base.{
  ℕ, zero, suc, ℤ, pos, negsuc, ◌-◌, ◌+ℤ◌, ◌-ℤ◌, ◌==ℤ◌, ◌==◌, leb_ℤ, List, [], ◌∷◌, Option, none,
  some, Bool, true, false, ◌||◌, ◌&&◌, not, if◌then◌else◌, get_elem?, length, remove_at,
}
use task_spooler_plus.State.{
  Job, Result, Procinfo, Server, Env, finished, is_running, is_pause, is_abnormal, is_queued,
  delete_db, cgroups_clean, jobs_table, finished_table, send_removejob_ok, send_removejob_nok,
}
use task_spooler_plus.Outcome.{Outcome, ok, died, ◌>>=◌}
use task_spooler_plus.Jobs.{findjob_idx, emit, free_cores}
use task_spooler_plus.Notify.{check_notify_list}
use task_spooler_plus.Finish.{
  Place, in_active, in_finished, find_removable, place_put, notify_errorlevel, new_finished_job,
}

unfoldable pub job_at : Server → Place → Option Job
job_at s (in_active i) = get_elem? s.active_jobs i
job_at s (in_finished i) = get_elem? s.finished_jobs i

-- The pause that is not over yet is counted, and the end is noted.
unfoldable pub close_times : Env → Job → Job
close_times e p = record p {
  info = if i.pause_time ==ℤ pos 0 then record i { end_time = e.now } else record i {
    end_time = e.now;
    pause_time = pos 0;
    pause_duration = i.pause_duration +ℤ (e.now -ℤ i.pause_time);
  };
}
  where
    open p use {info as i}

-- Taking the job off its list: a job that had a process is kept as a finished one.
unfoldable pub take_off : Env → Server → Place → Job → Server
take_off e s (in_active i) p =
    let t = record s { active_jobs = remove_at s.active_jobs i } in
    if p.pid ==ℤ pos 0
    then t
    else (let (r, q) = free_cores t (close_times e p) in
        new_finished_job e (emit (cgroups_clean q.jobid) r) q)
take_off e s (in_finished i) p =
    emit (delete_db p.jobid finished_table)
      (record s { finished_jobs = remove_at s.finished_jobs i })

-- The part of `s_remove_job` behind its tests. A job whose memory `check_notify_list` has freed is
-- read after that: no run is defined then.
unfoldable pub remove_found : Env → Server → ℤ → Place → Job → Outcome (Server × ℤ × Bool)
remove_found e s sock at p =
    let r : Result = record old { errorlevel = negsuc 0 } in
    let q = record p { state = finished; result = r } in
    let t = notify_errorlevel (place_put (emit (delete_db p.jobid jobs_table) s) at q) q in
    check_notify_list t p.jobid >>= λ w. elim (job_at w at) [
      | none ↦ died
      | some z ↦
          if z.jobid ==ℤ p.jobid
          then ok (emit (send_removejob_ok sock) (take_off e w at z), p.jobid, true)
          else died
    ]
  where
    open p use {result as old}

abbrev pub may_not_remove : Job → Bool
may_not_remove p = is_running p.state || is_pause p.state || is_abnormal p.state

-- The new value of `*jobid` and whether 1 is returned. `client` is NULL, or the index of a user.
unfoldable pub s_remove_job : Env → Server → ℤ → ℤ → Option ℕ → Outcome (Server × ℤ × Bool)
s_remove_job e s sock id client =
    let refuse : Outcome (Server × ℤ × Bool) = ok (emit (send_removejob_nok sock) s, id, false) in
    elim client [
      | none ↦ refuse
      | some u ↦ elim (find_removable s id) [
        | none ↦ refuse
        | some (at, p) ↦
            if not (u == 0) && not (p.user == u)
            then refuse
            else if may_not_remove p
            then refuse
            else remove_found e s sock at p
      ]
    ]

unfoldable pub s_delete_job : Server → ℤ → Outcome Server
s_delete_job s id = elim (findjob_idx s id) [
  | none ↦ died
  | some i ↦
      ok (emit (delete_db id jobs_table) (record s { active_jobs = remove_at s.active_jobs i }))
]

abbrev pub is_orphan : Job → Bool
is_orphan p = is_queued p.state && leb_ℤ p.client_socket (pos 0)

-- The loop over the places below `n`, from the last.
unfoldable pub clean_orphans : ℕ → Server → Outcome Server
clean_orphans zero s = ok s
clean_orphans (suc i) s =
    elim (get_elem? s.active_jobs i) [
      | none ↦ died
      | some p ↦ if is_orphan p then s_delete_job s p.jobid else ok s
    ]
    >>= λ t. clean_orphans i t

unfoldable pub s_cleanup_orphan_queued : Server → Outcome Server
s_cleanup_orphan_queued s = clean_orphans (length s.active_jobs) s

-- The finished jobs of a user, or all of them for root.
unfoldable pub clear_below : ℕ → ℕ → Server → Server
clear_below zero u s = s
clear_below (suc i) u s =
    let next : Server = elim (get_elem? s.finished_jobs i) [
      | none ↦ s
      | some p ↦
          if p.user == u || u == 0
          then emit (delete_db p.jobid finished_table)
              (record s { finished_jobs = remove_at s.finished_jobs i })
          else s
    ] in
    clear_below i u next

unfoldable pub s_clear_finished : Server → ℕ → Server
s_clear_finished s u = clear_below (length s.finished_jobs) u s
