-- ===== src/Finish/Recorded.antt =====
-- jobs.c job_finished: the end of a job with its record, for a job whose id is there once.
use task_spooler_plus.Base.{
  ℕ, ℤ, pos, ◌≤ℤ◌, ltb_ℤ, ◌≡◌, ap, sym, ◌∙◌, none, some, get_elem?, get_elem?-set_self, lt_of_get,
  remove_at, map, All-get, arith, false,
}
use task_spooler_plus.State.{Job, Result, Server, Env}
use task_spooler_plus.Outcome.{Outcome, ok, died, endless}
use task_spooler_plus.Jobs.{find_idx, findjob, put_job, free_cores}
use task_spooler_plus.Jobs.Lookup.{findjob-get}
use task_spooler_plus.Jobs.Balance.{Accounted, IsHeld}
use task_spooler_plus.Jobs.Alike.{bare, Alike-get, map-remove_at}
use task_spooler_plus.Finish.{new_finished_job, with_end, finish_at, job_finished}
use task_spooler_plus.Finish.Notices.{notify_errorlevel-Quiet}
use task_spooler_plus.Finish.Ending.{
  ended, ended-Moves, told, room, Ended, finish_at-found, finish_at-Ended, finished_list,
}
use task_spooler_plus.Finish.Recording.{
  recorded-IsRecord, find_idx-Alike, find_idx-remove_at, find_idx-room, IsRecorded, last-IsRecorded,
  room-Alike,
}
use task_spooler_plus.Scheduler.Sound.{Distinct}

free_cores-rest :
    (s : Server) (p : Job)
    → ((free_cores s p).0.finished_jobs ≡ s.finished_jobs)
      × ((free_cores s p).0.notifies ≡ s.notifies)
unfolding free_cores
free_cores-rest s p = ground arith

new_finished_job-notifies :
    (e : Env) (s : Server) (j : Job) → (new_finished_job e s j).notifies ≡ s.notifies
unfolding new_finished_job
new_finished_job-notifies e s j = ground arith

same_ok : {s t : Server} → ok s ≡ ok t → s ≡ t
same_ok {s} {t} h = ap (λ (o : Outcome Server). elim o [ died ↦ s | endless ↦ s | ok x ↦ x ]) h

-- No active job of the id is left.
Ended-gone :
    (s s' : Server) (i : ℕ) (p : Job)
    → Ended s i p s'
    → Distinct s.active_jobs
    → get_elem? s.active_jobs i ≡ some p
    → find_idx s'.active_jobs p.jobid ≡ none
Ended-gone s s' i p n d g =
    find_idx-Alike s'.active_jobs (remove_at s.active_jobs i) p.jobid
      (n.others ∙ sym (map-remove_at s.active_jobs i))
    ∙ find_idx-remove_at s.active_jobs i p d g

finish_at-IsRecorded :
    (e : Env) (s s' : Server) (r : Result) (i : ℕ) (p : Job)
    → IsHeld p
    → get_elem? s.active_jobs i ≡ some p
    → Distinct s.active_jobs
    → find_idx s.finished_jobs p.jobid ≡ none
    → finish_at e s r i p ≡ ok s'
    → Ended s i p s'
    → IsRecorded e s r p s'
finish_at-IsRecorded e s s' r i p h g d f o n =
    let put = put_job (free_cores s p).0 i (ended e s r p) in
    let q =
      notify_errorlevel-Quiet (record put { last_finished_jobid = (ended e s r p).jobid })
        (ended e s r p) in
    let g1 : get_elem? put.active_jobs i ≡ some (ended e s r p) =
      rw (ended-Moves e s r p h).same_active
        (get_elem?-set_self s.active_jobs i _ (lt_of_get s.active_jobs i p g)) in
    let (p3, g3, b3) =
      Alike-get put.active_jobs (told e s r i p).active_jobs i (ended e s r p) q.alike g1 in
    let j = with_end e r p3 in
    let gone : Server = record (told e s r i p) {
      active_jobs = remove_at (told e s r i p).active_jobs i;
    } in
    let same : new_finished_job e gone j ≡ s' =
      same_ok (sym (finish_at-found e s r i p p3 g3) ∙ o) in
    let fresh =
      find_idx-Alike gone.finished_jobs put.finished_jobs p.jobid q.finished_alike
      ∙ (ap (λ l. find_idx l p.jobid) (free_cores-rest s p).0 ∙ f) in
    last-IsRecorded e s s' r p j (room e gone) (recorded-IsRecord e s r p p3 b3)
      (room-Alike e gone s (q.finished_alike ∙ ap (map bare) (free_cores-rest s p).0))
      (Ended-gone s s' i p n d g)
      (ap (λ (x : Server). x.finished_jobs) (sym same) ∙ finished_list e gone j)
      (find_idx-room e gone p.jobid fresh)
      (ap (λ (x : Server). x.notifies) (sym same)
        ∙ (new_finished_job-notifies e gone j ∙ (q.same_notifies ∙ (free_cores-rest s p).1)))

pub job_finished-IsRecorded :
    (e : Env) (s : Server) (r : Result) (id : ℤ) (i : ℕ) (p : Job)
    → Accounted s
    → pos 0 ≤ℤ s.busy_slots
    → findjob s id ≡ some (i, p)
    → Distinct s.active_jobs
    → find_idx s.finished_jobs p.jobid ≡ none
    → (s' : Server) × (job_finished e s r id ≡ ok s') × Ended s i p s' × IsRecorded e s r p s'
unfolding job_finished
job_finished-IsRecorded e s r id i p a n f d z =
    let (g, _) = findjob-get s id i p f in
    let h = All-get IsHeld s.active_jobs i p a.each_job g in
    let (s', o, x) = finish_at-Ended e s r i p a h g in
    let c : ltb_ℤ s.busy_slots (pos 0) ≡ false = ground arith in
    (s', rw (c, f) o, x, finish_at-IsRecorded e s s' r i p h g d z o x)
