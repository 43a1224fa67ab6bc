-- ===== src/Removal/Answering.antt =====
-- notify.c check_notify_list: one turn of its loop, for a job that ended.
use task_spooler_plus.Base.{
  ℕ, ℤ, ◌≡◌, refl, ap, sym, ◌∙◌, List, ◌∷◌, ◌++◌, some, Bool, true, false, not, ◌&&◌, ◌||◌, ◌==ℤ◌,
  ==ℤ_refl, if◌then◌else◌, remove_at,
}
use task_spooler_plus.State.{Job, Server, Notify, Effect, send_waitjob_ok}
use task_spooler_plus.Outcome.{ok}
use task_spooler_plus.Jobs.{findjob_idx, findjob, find_finished_idx, find_finished_job, get_job}
use task_spooler_plus.Removal.Waiting.{OwnSockets, remove_socket-own, in_notify_list-append}
use task_spooler_plus.Notify.{
  in_notify_list, s_remove_notification, destroy_finished_job, has_ended, answer_waiter,
  check_notify, check_notifies,
}

abbrev pub stage : Server → List Notify → List Effect → Server
stage s ns out = record s { notifies = ns; out = out }

-- The server with other entries, without the finished job at a place or with it.
abbrev pub all_answered : Server → ℕ → Bool → List Notify → List Effect → Server
all_answered s i is_destroyed ns out = record s {
  notifies = ns;
  finished_jobs = if is_destroyed then remove_at s.finished_jobs i else s.finished_jobs;
  out = out;
}

destroyed :
    (s : Server) (ns : List Notify) (out : List Effect) (j : Job) (i : ℕ)
    → find_finished_idx s j.jobid ≡ some i
    → destroy_finished_job (stage s ns out) j
      ≡ ok (record s { notifies = ns; finished_jobs = remove_at s.finished_jobs i; out = out })
unfolding destroy_finished_job find_finished_idx
destroyed s ns out j i f = rw (destroy_finished_job, f) refl

answered_one :
    (s : Server) (pre ns : List Notify) (out : List Effect) (n : Notify) (j : Job)
    → OwnSockets (pre ++ n ∷ ns)
    → in_notify_list pre n.jobid ≡ false
    → answer_waiter (stage s (pre ++ n ∷ ns) out) n j ≡ (
        let t = stage s (pre ++ ns) (send_waitjob_ok n.socket j.result.errorlevel ∷ out) in
        if not (in_notify_list ns n.jobid) && not j.should_keep_finished
        then destroy_finished_job t j
        else ok t)
unfolding answer_waiter s_remove_notification
answered_one s pre ns out n j o p =
    let x = send_waitjob_ok n.socket j.result.errorlevel in
    ap
      (λ l.
        if not (in_notify_list l n.jobid) && not j.should_keep_finished
        then destroy_finished_job (stage s l (x ∷ out)) j
        else ok (stage s l (x ∷ out)))
      (remove_socket-own pre ns n o)
    ∙ ap
        (λ (b : Bool).
          let t = stage s (pre ++ ns) (x ∷ out) in
          if not b && not j.should_keep_finished then destroy_finished_job t j else ok t)
        (in_notify_list-append pre ns n.jobid p)

get_job-stage :
    (s : Server) (ns : List Notify) (out : List Effect) (id : ℤ)
    → get_job (stage s ns out) id ≡ get_job s id
unfolding get_job findjob findjob_idx find_finished_job find_finished_idx
get_job-stage s ns out id = refl

-- An entry of the job: the answer. An entry of another job: nothing.
check_notify_own :
    (s : Server) (ns : List Notify) (out : List Effect) (n : Notify) (j : Job)
    → get_job s n.jobid ≡ some j
    → has_ended j ≡ true
    → check_notify (stage s ns out) n.jobid n ≡ answer_waiter (stage s ns out) n j
unfolding check_notify
check_notify_own s ns out n j g e =
    rw (==ℤ_refl n.jobid) (rw (get_job-stage s ns out n.jobid) (rw g (rw e refl)))

pub check_notify_other :
    (s : Server) (id : ℤ) (n : Notify) → (n.jobid ==ℤ id) ≡ false → check_notify s id n ≡ ok s
unfolding check_notify
check_notify_other s id n e = rw e refl

pub in_notify_list-cons :
    (n : Notify) (ns : List Notify) (id : ℤ)
    → in_notify_list (n ∷ ns) id ≡ ((n.jobid ==ℤ id) || in_notify_list ns id)
unfolding in_notify_list
in_notify_list-cons n ns id = refl

pub check_notifies-step :
    (n : Notify) (ns : List Notify) (id : ℤ) (s t : Server)
    → check_notify s id n ≡ ok t
    → check_notifies (n ∷ ns) id s ≡ check_notifies ns id t
unfolding check_notifies
check_notifies-step n ns id s t e = rw e refl

-- One waiting client of the job, when another one waits or the job is to be kept.
pub answered_more :
    (s : Server) (pre ns : List Notify) (out : List Effect) (n : Notify) (j : Job)
    → n.jobid ≡ j.jobid
    → get_job s j.jobid ≡ some j
    → has_ended j ≡ true
    → OwnSockets (pre ++ n ∷ ns)
    → in_notify_list pre j.jobid ≡ false
    → (not (in_notify_list ns j.jobid) && not j.should_keep_finished) ≡ false
    → check_notify (stage s (pre ++ n ∷ ns) out) j.jobid n
      ≡ ok (stage s (pre ++ ns) (send_waitjob_ok n.socket j.result.errorlevel ∷ out))
answered_more s pre ns out n j q g e o p k =
    let t = stage s (pre ++ ns) (send_waitjob_ok n.socket j.result.errorlevel ∷ out) in
    ap (λ id. check_notify (stage s (pre ++ n ∷ ns) out) id n) (sym q)
    ∙ (check_notify_own s (pre ++ n ∷ ns) out n j (ap (get_job s) q ∙ g) e
        ∙ (answered_one s pre ns out n j o (ap (in_notify_list pre) q ∙ p)
            ∙ ap (λ b. if b then destroy_finished_job t j else ok t)
                (ap (λ id. not (in_notify_list ns id) && not j.should_keep_finished) q ∙ k)))

-- The last one, of a job that is not to be kept.
pub answered_last :
    (s : Server) (pre ns : List Notify) (out : List Effect) (n : Notify) (j : Job) (i : ℕ)
    → n.jobid ≡ j.jobid
    → get_job s j.jobid ≡ some j
    → has_ended j ≡ true
    → find_finished_idx s j.jobid ≡ some i
    → OwnSockets (pre ++ n ∷ ns)
    → in_notify_list pre j.jobid ≡ false
    → (not (in_notify_list ns j.jobid) && not j.should_keep_finished) ≡ true
    → check_notify (stage s (pre ++ n ∷ ns) out) j.jobid n
      ≡ ok (record s {
        notifies = pre ++ ns;
        finished_jobs = remove_at s.finished_jobs i;
        out = send_waitjob_ok n.socket j.result.errorlevel ∷ out;
      })
answered_last s pre ns out n j i q g e f o p k =
    let x = send_waitjob_ok n.socket j.result.errorlevel in
    let t = stage s (pre ++ ns) (x ∷ out) in
    ap (λ id. check_notify (stage s (pre ++ n ∷ ns) out) id n) (sym q)
    ∙ (check_notify_own s (pre ++ n ∷ ns) out n j (ap (get_job s) q ∙ g) e
        ∙ (answered_one s pre ns out n j o (ap (in_notify_list pre) q ∙ p)
            ∙ (ap (λ b. if b then destroy_finished_job t j else ok t)
                  (ap (λ id. not (in_notify_list ns id) && not j.should_keep_finished) q ∙ k)
                ∙ destroyed s (pre ++ ns) (x ∷ out) j i f)))
