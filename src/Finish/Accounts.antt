-- ===== src/Finish/Accounts.antt =====
-- jobs.c job_finished: the end of a job keeps balanced counters balanced, when the server returns.
use task_spooler_plus.Base.{
  ℕ, ℤ, pos, ◌≤ℤ◌, ltb_ℤ, ◌≡◌, refl, sym, ◌∙◌, subst, some, inl, inr, Bool-cases, Option-cases,
  arith,
}
use task_spooler_plus.State.{Job, Result, Server, Env}
use task_spooler_plus.Outcome.{ok, died, endless, ok-inj, Yields}
use task_spooler_plus.Jobs.{findjob}
use task_spooler_plus.Jobs.Balance.{Accounted}
use task_spooler_plus.Finish.{job_finished}
use task_spooler_plus.Finish.Ending.{job_finished-Ended}

-- A job that ended was in the queue of a server whose counters were not negative.
ended-found :
    (e : Env) (s t : Server) (r : Result) (id : ℤ)
    → job_finished e s r id ≡ ok t
    → (pos 0 ≤ℤ s.busy_slots) × ((k : ℕ × Job) × (findjob s id ≡ some k))
unfolding job_finished
ended-found e s t r id h = elim (Bool-cases (ltb_ℤ s.busy_slots (pos 0))) [
  | inl b ↦ absurd (ground arith)
  | inr b ↦ elim (Option-cases (findjob s id)) [
    | inl n ↦ absurd (ground arith)
    | inr (k, f) ↦ (ground arith, (k, f))
  ]
]

pub ends-Accounted :
    (e : Env) (s t : Server) (r : Result) (id : ℤ)
    → job_finished e s r id ≡ ok t
    → Accounted s
    → Accounted t
ends-Accounted e s t r id h a =
    let (n, (k, f)) = ended-found e s t r id h in
    let (s', eq, d) = job_finished-Ended e s r id k.0 k.1 a n f in
    subst Accounted (ok-inj (sym eq ∙ h)) d.accounted

pub finished-Accounted :
    (e : Env) (s : Server) (r : Result) (id : ℤ)
    → Accounted s
    → Yields Accounted (job_finished e s r id)
finished-Accounted e s r id a =
    elim (job_finished e s r id) as (λ o. job_finished e s r id ≡ o → Yields Accounted o) [
      | died ↦ λ h. tt
      | endless ↦ λ h. tt
      | ok t ↦ λ h. ends-Accounted e s t r id h a
    ]
      refl
