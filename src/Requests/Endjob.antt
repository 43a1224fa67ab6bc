-- ===== src/Requests/Endjob.antt =====
-- server.c ENDJOB: the end of a job and the answers to the clients that wait for it.
use task_spooler_plus.Base.{
  ℕ, ℤ, pos, ◌≤ℤ◌, ◌≡◌, refl, ap, sym, subst, ◌∙◌, none, some, [], ◌∷◌, ◌++◌, map, length, false,
  not, ◌&&◌,
}
use task_spooler_plus.State.{Job, Result, Server, Env, send_endjob_ok}
use task_spooler_plus.Outcome.{ok}
use task_spooler_plus.Jobs.{find_idx, findjob, find_finished_idx, get_job, emit}
use task_spooler_plus.Jobs.Lookup.{findjob-get}
use task_spooler_plus.Jobs.Balance.{Accounted}
use task_spooler_plus.Jobs.Alike.{bare}
use task_spooler_plus.Notify.{in_notify_list, check_notify_list}
use task_spooler_plus.Finish.{job_finished}
use task_spooler_plus.Finish.Ending.{Ended, room}
use task_spooler_plus.Finish.Recording.{IsRecord, IsRecorded}
use task_spooler_plus.Finish.Recorded.{job_finished-IsRecorded}
use task_spooler_plus.Removal.Waiting.{others, answers, OwnSockets}
use task_spooler_plus.Removal.Answering.{all_answered}
use task_spooler_plus.Removal.Answered.{check_notify_list-answers}
use task_spooler_plus.Scheduler.Sound.{Distinct}
use task_spooler_plus.Connections.{Conn, Session, put_conn, with_server}
use task_spooler_plus.Answers.{endjob_request}

-- The server `s'`, on which the job is recorded, when the clients are answered.
abbrev pub answered_from : Server → Server → ℕ → ℤ → Result → Job → Server
answered_from s s' k id r p =
    all_answered s' k (in_notify_list s.notifies id && not p.should_keep_finished)
      (others id s.notifies) (answers id r.errorlevel s.notifies s'.out)

recorded-answers :
    (e : Env) (s s' : Server) (id : ℤ) (r : Result) (p : Job) (q : IsRecorded e s r p s')
    → p.jobid ≡ id
    → OwnSockets s.notifies
    → check_notify_list s' id ≡ ok (answered_from s s' q.place id r p)
recorded-answers e s s' id r p q same o =
    let j = q.last_job in
    let here : j.jobid ≡ p.jobid = q.is_record.same_id in
    let a =
      check_notify_list-answers s' j q.place (ap (get_job s') here ∙ q.found) q.is_record.is_over
        (ap (find_finished_idx s') here ∙ q.at_place) (subst OwnSockets (sym q.same_notifies) o) in
    let there : j.jobid ≡ id = here ∙ same in
    ap (check_notify_list s') (sym there)
    ∙ (a
        ∙ (ap
              (λ x. ok (
                all_answered s' q.place (in_notify_list s'.notifies x && not j.should_keep_finished)
                  (others x s'.notifies) (answers x j.result.errorlevel s'.notifies s'.out)))
              there
            ∙ (ap
                  (λ ns. ok (
                    all_answered s' q.place (in_notify_list ns id && not j.should_keep_finished)
                      (others id ns) (answers id j.result.errorlevel ns s'.out)))
                  q.same_notifies
                ∙ (ap
                      (λ b. ok (
                        all_answered s' q.place (in_notify_list s.notifies id && not b)
                          (others id s.notifies)
                          (answers id j.result.errorlevel s.notifies s'.out)))
                      q.is_record.same_keep
                    ∙ ap (λ (x : Result). ok (answered_from s s' q.place id x p))
                        q.is_record.has_result))))

endjob-then :
    (e : Env) (z : Session) (index : ℕ) (c : Conn) (r : Result) (s' t : Server)
    → job_finished e z.server r c.jobid ≡ ok s'
    → check_notify_list s' c.jobid ≡ ok t
    → endjob_request e z index c r
      ≡ ok (
          put_conn
            (with_server z (emit (send_endjob_ok c.socket c.jobid) t))
            index
            (record c { hasjob = false }))
unfolding endjob_request
endjob-then e z index c r s' t f g = rw (f, endjob_request) (rw g refl)

-- ENDJOB on a connection whose job is in the queue, when no other active or finished job has its
-- id, the counters are balanced and not negative, and no client waits twice, never ends the
-- server. The job leaves the queue, its slots are released, and the counters stay balanced. The
-- ended job, with its result, is put at the end of the finished jobs, from which the oldest is
-- dropped first when the list is full; the others stay there, but for the errors of what they
-- depend on. After that each client that waits for the job is sent its error level, in the order
-- in which they came, the others wait on, the ended job is taken off the finished jobs again just
-- when somebody waited and it is not to be kept, and the connection has no job any more.
pub endjob_request-answers :
    (e : Env) (z : Session) (index : ℕ) (c : Conn) (r : Result) (i : ℕ) (p : Job)
    → Accounted z.server
    → pos 0 ≤ℤ z.server.busy_slots
    → findjob z.server c.jobid ≡ some (i, p)
    → Distinct z.server.active_jobs
    → find_idx z.server.finished_jobs c.jobid ≡ none
    → OwnSockets z.server.notifies
    → (s' : Server) × (j : Job) × Ended z.server i p s'
      × IsRecord r p j
      × (map bare s'.finished_jobs ≡ map bare (room e z.server) ++ bare j ∷ [])
      × (endjob_request e z index c r
          ≡ ok (
              put_conn
                (with_server z (
                  emit
                    (send_endjob_ok c.socket c.jobid)
                    (answered_from z.server s' (length (room e z.server)) c.jobid r p)))
                index
                (record c { hasjob = false })))
endjob_request-answers e z index c r i p a n f d h o =
    let (g, id) = findjob-get z.server c.jobid i p f in
    let (s', q, x, y) =
      job_finished-IsRecorded e z.server r c.jobid i p a n f d
        (ap (find_idx z.server.finished_jobs) id ∙ h) in
    (
      s',
      y.last_job,
      x,
      y.is_record,
      y.is_list,
      endjob-then e z index c r s' _ q (
          recorded-answers e z.server s' c.jobid r p y id o
          ∙ ap (λ k. ok (answered_from z.server s' k c.jobid r p)) y.is_last),
    )
