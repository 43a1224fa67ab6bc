-- ===== src/Finish/Notices.antt =====
-- jobs.c notify_errorlevel: what the jobs that wait for an ended job keep.
use task_spooler_plus.Base.{
  ℤ, pos, i64abs, ◌≡◌, refl, ap, ◌∙◌, List, [], ◌∷◌, none, some, Bool-cases, arith, inl, inr, ◌==ℤ◌,
  ==ℤ_iff,
}
use task_spooler_plus.State.{Job, Result, Server}
use task_spooler_plus.Jobs.{findjob_idx, free_cores}
use task_spooler_plus.Jobs.Balance.{IsHeld}
use task_spooler_plus.Jobs.Alike.{bare, Alike}
use task_spooler_plus.Finish.{
  change_found, change_job, add_errorlevel, notify_all, notify_errorlevel, with_result,
}

pub change_found-Alike :
    (ps : List Job) (id k : ℤ) → Alike (change_found ps id (add_errorlevel k)) ps
unfolding change_found
change_found-Alike [] id k = refl
change_found-Alike (p ∷ ps) id k = elim (Bool-cases (p.jobid ==ℤ id)) [
  | inl t ↦ rw t refl
  | inr t ↦ rw t (ap (λ l. bare p ∷ l) (change_found-Alike ps id k))
]

-- What a notification leaves as it was: all of a job but the errors of what it depends on.
pub record Quiet (s t : Server) : Type 0 where
  pub alike : Alike t.active_jobs s.active_jobs
  pub finished_alike : Alike t.finished_jobs s.finished_jobs
  pub same_users : t.users ≡ s.users
  pub same_busy : t.busy_slots ≡ s.busy_slots
  pub same_notifies : t.notifies ≡ s.notifies

pub change_job-Quiet : (s : Server) (id k : ℤ) → Quiet s (change_job s id (add_errorlevel k))
unfolding change_job
change_job-Quiet s id k =
    elim (findjob_idx s id)
      as (λ o. Quiet s (elim o [
        | some i ↦ record s { active_jobs = change_found s.active_jobs id (add_errorlevel k) }
        | none ↦ record s { finished_jobs = change_found s.finished_jobs id (add_errorlevel k) }
      ])) [
        | none ↦ record {
          alike = refl;
          finished_alike = change_found-Alike s.finished_jobs id k;
          same_users = refl;
          same_busy = refl;
          same_notifies = refl;
        }
        | some i ↦ record {
          alike = change_found-Alike s.active_jobs id k;
          finished_alike = refl;
          same_users = refl;
          same_busy = refl;
          same_notifies = refl;
        }
      ]

pub Quiet-trans : {s t r : Server} → Quiet s t → Quiet t r → Quiet s r
Quiet-trans a b = record {
  alike = b.alike ∙ a.alike;
  finished_alike = b.finished_alike ∙ a.finished_alike;
  same_users = b.same_users ∙ a.same_users;
  same_busy = b.same_busy ∙ a.same_busy;
  same_notifies = b.same_notifies ∙ a.same_notifies;
}

pub notify_all-Quiet : (ids : List ℤ) (k : ℤ) (s : Server) → Quiet s (notify_all ids k s)
unfolding notify_all
notify_all-Quiet [] k s = record {
  alike = refl;
  finished_alike = refl;
  same_users = refl;
  same_busy = refl;
  same_notifies = refl;
}
notify_all-Quiet (id ∷ ids) k s = Quiet-trans (change_job-Quiet s id k) (notify_all-Quiet ids k _)

pub notify_errorlevel-Quiet : (s : Server) (p : Job) → Quiet s (notify_errorlevel s p)
unfolding notify_errorlevel
notify_errorlevel-Quiet s p =
    let q =
      notify_all-Quiet p.notify_errorlevel_to (i64abs p.result.errorlevel)
        (record s { last_errorlevel = p.result.errorlevel }) in
    record {
      alike = q.alike;
      finished_alike = q.finished_alike;
      same_users = q.same_users;
      same_busy = q.same_busy;
      same_notifies = q.same_notifies;
    }

pub free_cores-free : (s : Server) (p : Job) → (free_cores s p).1.num_allocated ≡ pos 0
unfolding free_cores
free_cores-free s p = ground (arith, ==ℤ_iff p.num_allocated (pos 0))

pub ended-IsHeld : (r : Result) (p : Job) → p.num_allocated ≡ pos 0 → IsHeld (with_result r p)
unfolding with_result
ended-IsHeld r p h = ground arith
