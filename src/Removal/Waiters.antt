-- ===== src/Removal/Waiters.antt =====
-- jobs.c s_remove_job with notify.c check_notify_list: a client waits for the job that is removed.
use task_spooler_plus.Base.{
  ◌≡◌, refl, ap, ◌∙◌, List, ◌∷◌, none, some, Bool, true, false, not, ◌&&◌, ==ℤ_refl, if◌then◌else◌,
}
use task_spooler_plus.State.{Job, Server, Notify, send_waitjob_ok}
use task_spooler_plus.Outcome.{ok, died}
use task_spooler_plus.Jobs.{find_finished_idx, get_job, emit}
use task_spooler_plus.Notify.{
  in_notify_list, remove_socket, s_remove_notification, destroy_finished_job, has_ended,
  answer_waiter, check_notify, check_notifies, check_notify_list,
}

destroy-dies :
    (s : Server) (j : Job) → find_finished_idx s j.jobid ≡ none → destroy_finished_job s j ≡ died
unfolding destroy_finished_job
destroy-dies s j f = rw (destroy_finished_job, f) refl

-- The answer to the last client that waits for an ended job that is not to be kept and not among the
-- finished jobs.
answer-dies :
    (s : Server) (n : Notify) (j : Job)
    → in_notify_list (remove_socket s.notifies n.socket) n.jobid ≡ false
    → j.should_keep_finished ≡ false
    → find_finished_idx s j.jobid ≡ none
    → answer_waiter s n j ≡ died
unfolding answer_waiter s_remove_notification find_finished_idx
answer-dies s n j w k f =
    let t =
      s_remove_notification (emit (send_waitjob_ok n.socket j.result.errorlevel) s) n.socket in
    ap
      (λ (b : Bool).
        if not (in_notify_list t.notifies n.jobid) && not b then destroy_finished_job t j else ok t)
      k
    ∙ rw w (destroy-dies t j f)

check-dies :
    (s : Server) (n : Notify) (j : Job)
    → get_job s n.jobid ≡ some j
    → has_ended j ≡ true
    → answer_waiter s n j ≡ died
    → check_notify s n.jobid n ≡ died
unfolding check_notify
check-dies s n j g e a = rw (==ℤ_refl n.jobid, g, e) a

-- The last client that waits for an ended job ends the server, when the job is not to be kept and
-- is not on the list of finished jobs.
pub check_notify_list-dies :
    (s : Server) (n : Notify) (ns : List Notify) (j : Job)
    → s.notifies ≡ n ∷ ns
    → in_notify_list ns n.jobid ≡ false
    → get_job s n.jobid ≡ some j
    → has_ended j ≡ true
    → j.should_keep_finished ≡ false
    → find_finished_idx s j.jobid ≡ none
    → check_notify_list s n.jobid ≡ died
unfolding check_notify_list check_notifies
check_notify_list-dies s n ns j q w g e k f =
    let r : remove_socket s.notifies n.socket ≡ ns =
      ap (λ l. remove_socket l n.socket) q ∙ removed n ns in
    let a = answer-dies s n j (ap (λ l. in_notify_list l n.jobid) r ∙ w) k f in
    ap (λ l. check_notifies l n.jobid s) q ∙ rw (check-dies s n j g e a) refl
  where
    removed : (n : Notify) (ns : List Notify) → remove_socket (n ∷ ns) n.socket ≡ ns
    removed n ns = (unfold remove_socket in rw (==ℤ_refl n.socket) refl)
