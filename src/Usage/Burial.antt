-- ===== src/Usage/Burial.antt =====
-- jobs.c s_update_slots_usage: the jobs whose process is gone.
use task_spooler_plus.Base.{
  ℕ, zero, suc, none, some, if◌then◌else◌, get_elem?, inl, inr, Bool-cases, Option-cases,
}
use task_spooler_plus.State.{Job, Server, Env}
use task_spooler_plus.Outcome.{ok, died, Yields, Yields-bind}
use task_spooler_plus.Jobs.Balance.{Accounted}
use task_spooler_plus.Notify.Accounts.{check_notify_list-Accounted}
use task_spooler_plus.Finish.Accounts.{finished-Accounted}
use task_spooler_plus.Usage.{is_dead, dead_result, bury, bury_dead}

bury-Accounted : (e : Env) (s : Server) (p : Job) → Accounted s → Yields Accounted (bury e s p)
unfolding bury
bury-Accounted e s p a =
    Yields-bind Accounted Accounted _ _ (finished-Accounted e s (dead_result e p) p.jobid a)
      (λ (t : Server). λ b. check_notify_list-Accounted t p.jobid b)

pub bury_dead-Accounted :
    (n : ℕ) (e : Env) (s : Server) → Accounted s → Yields Accounted (bury_dead n e s)
unfolding bury_dead
bury_dead-Accounted zero e s a = a
bury_dead-Accounted (suc i) e s a =
    Yields-bind Accounted Accounted _ _ (one_dead i e s a)
      (λ (t : Server). λ b. bury_dead-Accounted i e t b)
  where
    one_dead :
        (i : ℕ) (e : Env) (s : Server)
        → Accounted s
        → Yields Accounted (elim (get_elem? s.active_jobs i) [
          | none ↦ died
          | some p ↦ if is_dead e p then bury e s p else ok s
        ])
    one_dead i e s a = elim (Option-cases (get_elem? s.active_jobs i)) [
      | inl g ↦ rw g tt
      | inr (p, g) ↦ elim (Bool-cases (is_dead e p)) [
        | inl d ↦ rw (g, d) (bury-Accounted e s p a)
        | inr d ↦ rw (g, d) a
      ]
    ]
