-- ===== src/Requests/Errors.antt =====
-- server.c client_read: requests on which the server ends.
use task_spooler_plus.Base.{
  ℕ, ℤ, pos, ◌≡◌, refl, none, some, Bool, false, Bool-cases, inl, inr, get_elem?, ◌==ℤ◌, ltb_ℤ,
}
use task_spooler_plus.State.{Result, User, Server, Env}
use task_spooler_plus.Outcome.{died}
use task_spooler_plus.Jobs.{findjob}
use task_spooler_plus.Finish.{job_finished}
use task_spooler_plus.Connections.{Conn, Session}
use task_spooler_plus.Requests.{client_read, handle}
use task_spooler_plus.Answers.{endjob}
use task_spooler_plus.Answers.{endjob_request, suspend_request, unlock_late, find_user}

no_job-dies :
    (e : Env) (s : Server) (r : Result) (id : ℤ)
    → findjob s id ≡ none
    → job_finished e s r id ≡ died
unfolding job_finished
no_job-dies e s r id f = elim (Bool-cases (ltb_ℤ s.busy_slots (pos 0))) [
  | inl t ↦ rw (job_finished, t) refl
  | inr t ↦ rw (job_finished, t, f) refl
]

endjob-dies :
    (e : Env) (descends : ℤ → ℤ → Bool) (z : Session) (index : ℕ) (c : Conn) (x : User) (r : Result)
    → findjob z.server c.jobid ≡ none
    → handle e descends z index c x (endjob r) ≡ died
unfolding handle endjob_request
endjob-dies e descends z index c x r f = rw (no_job-dies e z.server r c.jobid f) refl

suspend_request-dies :
    (e : Env) (s : Server) (sock uid : ℤ)
    → (uid ==ℤ pos 0) ≡ false
    → find_user s.users uid ≡ none
    → suspend_request e s sock 0 uid ≡ died
unfolding suspend_request
suspend_request-dies e s sock uid n f = rw (n, f) refl

-- ENDJOB from a known user, on a connection whose job is not in the queue after a late lock is
-- removed, ends the server.
pub client_read-endjob :
    (e : Env) (descends : ℤ → ℤ → Bool) (z : Session) (index : ℕ) (c : Conn) (x : User) (r : Result)
    → get_elem? z.conns index ≡ some c
    → get_elem? z.server.users c.user ≡ some x
    → findjob (unlock_late e z.server) c.jobid ≡ none
    → client_read e descends z index (endjob r) ≡ died
unfolding client_read
client_read-endjob e descends z index c x r g h f =
    rw (client_read, g, h) (endjob-dies e descends _ index c x r f)
