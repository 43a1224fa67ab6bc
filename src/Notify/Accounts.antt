-- ===== src/Notify/Accounts.antt =====
-- notify.c check_notify_list: the answers to waiting clients change neither the counters nor the active
-- jobs.
use task_spooler_plus.Base.{ℤ, ◌==ℤ◌, List, [], ◌∷◌, not, ◌&&◌, Bool-cases, Option-cases, inl, inr}
use task_spooler_plus.State.{Job, Server, Notify, send_waitjob_ok}
use task_spooler_plus.Outcome.{Yields, Yields-bind}
use task_spooler_plus.Jobs.{find_finished_idx, get_job, emit}
use task_spooler_plus.Jobs.Balance.{Accounted}
use task_spooler_plus.Notify.{
  in_notify_list, s_remove_notification, destroy_finished_job, has_ended, answer_waiter,
  check_notify, check_notifies, check_notify_list,
}

destroy-Accounted :
    (s : Server) (j : Job) → Accounted s → Yields Accounted (destroy_finished_job s j)
unfolding destroy_finished_job
destroy-Accounted s j a = elim (Option-cases (find_finished_idx s j.jobid)) [
  | inl n ↦ rw (destroy_finished_job, n) tt
  | inr (i, f) ↦
      rw (destroy_finished_job, f) record { total = a.total; each = a.each; each_job = a.each_job }
]

answer_waiter-Accounted :
    (s : Server) (n : Notify) (j : Job) → Accounted s → Yields Accounted (answer_waiter s n j)
unfolding answer_waiter s_remove_notification
answer_waiter-Accounted s n j a =
    let t =
      s_remove_notification (emit (send_waitjob_ok n.socket j.result.errorlevel) s) n.socket in
    let b : Accounted t = record { total = a.total; each = a.each; each_job = a.each_job } in
    elim (Bool-cases (not (in_notify_list t.notifies n.jobid) && not j.should_keep_finished)) [
      | inl c ↦ rw (answer_waiter, c) (destroy-Accounted t j b)
      | inr c ↦ rw (answer_waiter, c) b
    ]

check_notify-Accounted :
    (s : Server) (id : ℤ) (n : Notify) → Accounted s → Yields Accounted (check_notify s id n)
unfolding check_notify
check_notify-Accounted s id n a = elim (Bool-cases (n.jobid ==ℤ id)) [
  | inr e ↦ rw (check_notify, e) a
  | inl e ↦ elim (Option-cases (get_job s id)) [
    | inl g ↦ rw (check_notify, e, g) tt
    | inr (j, g) ↦ elim (Bool-cases (has_ended j)) [
      | inl h ↦ rw (check_notify, e, g, h) (answer_waiter-Accounted s n j a)
      | inr h ↦ rw (check_notify, e, g, h) a
    ]
  ]
]

check_notifies-Accounted :
    (ns : List Notify) (id : ℤ) (s : Server)
    → Accounted s
    → Yields Accounted (check_notifies ns id s)
unfolding check_notifies
check_notifies-Accounted [] id s a = a
check_notifies-Accounted (n ∷ ns) id s a =
    Yields-bind Accounted Accounted _ _ (check_notify-Accounted s id n a)
      (λ (t : Server). λ b. check_notifies-Accounted ns id t b)

pub check_notify_list-Accounted :
    (s : Server) (id : ℤ) → Accounted s → Yields Accounted (check_notify_list s id)
unfolding check_notify_list
check_notify_list-Accounted s id a = check_notifies-Accounted s.notifies id s a
