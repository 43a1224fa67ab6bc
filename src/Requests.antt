-- ===== src/Requests.antt =====
-- server.c client_read: what the server does with one message.
pub mod Reconnect
pub mod Errors
pub mod Endjob
use task_spooler_plus.Base.{
  ℕ, zero, suc, ℤ, pos, negsuc, ◌-ℤ◌, ◌==ℤ◌, ◌==◌, ltb_ℤ, String, List, [], ◌∷◌, Option, none, some,
  Bool, true, false, ◌||◌, ◌&&◌, not, if◌then◌else◌, get_elem?, set, length, remove_at,
}
use task_spooler_plus.State.{
  Job, Result, User, Server, Env, Jobstate, running, is_running, is_pause, is_finished, is_skipped,
  is_queued, is_delink, is_locked, is_wait, is_holding_client, close_connection, send_list_line,
  send_newjob_ok, send_newjob_nok, send_reconnect_ok, send_error_info, send_endjob_ok,
  send_find_pid, send_answer,
}
use task_spooler_plus.Outcome.{Outcome, ok, died, ◌>>=◌}
use task_spooler_plus.Jobs.{findjob, findjob_idx, get_job, emit}
use task_spooler_plus.Scheduler.{s_send_runjob}
use task_spooler_plus.Notify.{check_notify_list, s_wait_job, s_wait_running_job}
use task_spooler_plus.Finish.{change_found, job_finished}
use task_spooler_plus.Removal.{s_remove_job, s_clear_finished}
use task_spooler_plus.Queue.{
  s_move_urgent, s_swap_jobs, s_sort_jobs, s_set_max_slots, s_add_wtime, s_count_running_jobs,
  s_kill_all_jobs, s_find_pid,
}
use task_spooler_plus.Newjob.{s_newjob}
use task_spooler_plus.Dependencies.{Request}
use task_spooler_plus.Restart.{s_process_runjob_ok, s_send_last_id}
use task_spooler_plus.Users.{
  s_get_job_user, s_suspend_user, s_suspend_user_all, s_resume_user, s_resume_user_all,
  s_check_locker, s_lock_server, s_unlock_server, s_hold_job, s_cont_job, s_requeue_job,
}
use task_spooler_plus.UserFile.{s_refresh_users}
use task_spooler_plus.Connections.{
  Conn, Session, put_conn, with_server, remove_connection, clean_after_client_disappeared,
  s_remove_all_queues, release_job,
}
use task_spooler_plus.Answers.{
  lost, refresh_users, lock_server, unlock_server, kill_server, kill_all, list_jobs, last_id,
  clear_finished, count_running, answered, unknown, hold_job, cont_job, requeue_job, suspend_user,
  resume_user, remove_job, wait_job, wait_running_job, urgent, set_max_slots, newjob, runjob_ok,
  add_wtime, swap_jobs, reconnect, find_pid, endjob, break, nobreak, close, Message, Break,
  finish_request, unlock_late, find_user, told, suspend_request, resume_request,
  job_is_holding_client, newjob_answer, newjob_request, may_reconnect, pid_differs, reconnected,
  is_refused, hand_over, run_again, reconnect_request, endjob_request, drop_clients, remove_request,
  sorted, owns, urgent_request, swap_request, going_on,
}

-- The switch of `client_read`, for a message of the connection `c` at `index`, whose user has the record
-- `x`. `descends` is what `is_descendant_pid` answers.
unfoldable pub handle :
    Env → (ℤ → ℤ → Bool) → Session → ℕ → Conn → User → Message → Outcome (Session × Break)
handle e descends z index c x lost =
    clean_after_client_disappeared e z c.socket index >>= λ y. going_on y
handle e descends z index c x refresh_users =
    (if c.user == 0 then s_refresh_users e z.server c.socket else ok z.server) >>= λ s.
    finish_request (with_server z s) c.socket index
handle e descends z index c x lock_server = s_lock_server e z.server c.socket c.user x.uid >>= λ s.
    finish_request (with_server z s) c.socket index
handle e descends z index c x unlock_server =
    finish_request (with_server z (s_unlock_server z.server c.socket c.user x.uid)) c.socket index
handle e descends z index c x (hold_job id) =
    finish_request (with_server z (s_hold_job e z.server c.socket id c.user x)) c.socket index
handle e descends z index c x (cont_job id) = s_cont_job e z.server c.socket id c.user >>= λ s.
    finish_request (with_server z s) c.socket index
handle e descends z index c x (requeue_job id) =
    finish_request (with_server z (s_requeue_job e z.server c.socket id c.user x)) c.socket index
handle e descends z index c x (suspend_user uid) =
    suspend_request e z.server c.socket c.user uid >>= λ s.
    finish_request (with_server z s) c.socket index
handle e descends z index c x (resume_user uid) =
    resume_request e z.server c.socket c.user uid >>= λ s.
    finish_request (with_server z s) c.socket index
handle e descends z index c x kill_server = ok (z, if c.user == 0 then break else nobreak)
handle e descends z index c x (newjob m wait_enqueuing) =
    newjob_request e z index c m wait_enqueuing >>= λ y. going_on y
handle e descends z index c x (runjob_ok oname pid) =
    if ltb_ℤ (pos 0) pid
    then (s_process_runjob_ok e z.server c.jobid oname pid >>= λ s. going_on (with_server z s))
    else going_on z
handle e descends z index c x kill_all =
    s_remove_all_queues e (with_server z (s_kill_all_jobs z.server c.socket c.user)) c.user >>= λ y.
    finish_request (with_server y (told y.server c.socket)) c.socket index
handle e descends z index c x list_jobs =
    finish_request (with_server z (told z.server c.socket)) c.socket index
handle e descends z index c x last_id = going_on (with_server z (s_send_last_id z.server c.socket))
handle e descends z index c x (add_wtime id w) =
    finish_request (if c.user == 0 then with_server z (s_add_wtime z.server c.socket id w) else z)
      c.socket index
handle e descends z index c x (reconnect id pid) =
    reconnect_request z index c id pid >>= λ y. going_on y
handle e descends z index c x (endjob r) = endjob_request e z index c r >>= λ y. going_on y
handle e descends z index c x clear_finished =
    going_on (with_server z (s_clear_finished z.server c.user))
handle e descends z index c x (remove_job id) = remove_request e z c id >>= λ y. going_on y
handle e descends z index c x (wait_job id) =
    going_on (with_server z (s_wait_job z.server c.socket id))
handle e descends z index c x (wait_running_job id) =
    s_wait_running_job z.server c.socket id >>= λ s. going_on (with_server z s)
handle e descends z index c x count_running =
    going_on (with_server z (s_count_running_jobs z.server c.socket c.user))
handle e descends z index c x (urgent id) = finish_request (urgent_request z c id) c.socket index
handle e descends z index c x (set_max_slots n) =
    finish_request (if c.user == 0 then with_server z (s_set_max_slots z.server c.socket n) else z)
      c.socket index
handle e descends z index c x (swap_jobs id1 id2) =
    finish_request (swap_request z c id1 id2) c.socket index
handle e descends z index c x (find_pid pid deep) =
    going_on (
      with_server z
        (emit (send_find_pid c.socket (s_find_pid z.server descends pid deep)) z.server))
handle e descends z index c x answered =
    going_on (with_server z (emit (send_answer c.socket) z.server))
handle e descends z index c x unknown = ok (z, close)

unfoldable pub client_read :
    Env → (ℤ → ℤ → Bool) → Session → ℕ → Message → Outcome (Session × Break)
client_read e descends z index m = elim (get_elem? z.conns index) [
  | none ↦ died
  | some c ↦ elim (get_elem? z.server.users c.user) [
    | none ↦ died
    | some x ↦ elim m [
      | lost ↦ handle e descends z index c x lost
      | n ↦ handle e descends (with_server z (unlock_late e z.server)) index c x n
    ]
  ]
]
