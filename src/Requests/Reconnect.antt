-- ===== src/Requests/Reconnect.antt =====
-- server.c RECONNECT: the job of a client that comes back belongs to one connection.
use task_spooler_plus.Base.{
  ℕ, zero, suc, ℤ, pos, ◌+◌, ◌≡◌, ◌≢◌, refl, sym, ◌∙◌, subst, List, [], ◌∷◌, some, Bool, true,
  false, ◌&&◌, not, Bool-cases, inl, inr, arith, get_elem?, get_elem?-set_ne, set, ◌==ℤ◌, ◌==◌,
}
use task_spooler_plus.State.{Job, Server, is_running}
use task_spooler_plus.Outcome.{Outcome, ok, died, endless, ◌>>=◌, Yields}
use task_spooler_plus.Jobs.{get_job}
use task_spooler_plus.Scheduler.{s_send_runjob}
use task_spooler_plus.Connections.{Conn, Session, with_server, release_job}
use task_spooler_plus.Answers.{hand_over, run_again, reconnect_request, is_refused, reconnected}

-- Whether a connection is that of a job.
abbrev pub carries : ℤ → Conn → Bool
carries id c = c.hasjob && c.jobid ==ℤ id

released :
    (cs : List Conn) (here index : ℕ) (id : ℤ) (j : ℕ) (d : Conn)
    → get_elem? (release_job cs here index id) j ≡ some d
    → here + j ≢ index
    → carries id d ≡ false
unfolding release_job
released [] here index id j d g n = cc
released (c ∷ cs) here index id zero d g n = elim (Bool-cases (carries id c)) [
  | inl t ↦ elim (Bool-cases (here == index)) [
    | inl h ↦ absurd (n (ground arith))
    | inr h ↦ ground arith
  ]
  | inr t ↦
      let k : (not (here == index) && c.hasjob && c.jobid ==ℤ id) ≡ false = ground arith in
      let e : c ≡ d = ground arith in subst (λ v. carries id v ≡ false) e t
]
released (c ∷ cs) here index id (suc j) d g n =
    released cs (suc here) index id j d g (λ e. n (omega (arith, e)))

-- One connection at most, that at `index`, has the job.
abbrev IsOwner : ℕ → ℤ → Session → Type 0
IsOwner index id y =
    (j : ℕ) (d : Conn) → get_elem? y.conns j ≡ some d → j ≢ index → carries id d ≡ false

owner-put :
    (cs : List Conn) (index : ℕ) (id : ℤ) (c : Conn) (j : ℕ) (d : Conn)
    → get_elem? (set (release_job cs 0 index id) index c) j ≡ some d
    → j ≢ index
    → carries id d ≡ false
owner-put cs index id c j d g n =
    released cs 0 index id j d
      (sym (get_elem?-set_ne (release_job cs 0 index id) c (λ e. n (sym e))) ∙ g)
      (λ e. n (omega (arith, e)))

hand_over-IsOwner :
    (z : Session) (index : ℕ) (c : Conn) (id : ℤ) → IsOwner index id (hand_over z index c id)
unfolding hand_over
hand_over-IsOwner z index c id = owner-put z.conns index id (record c { hasjob = true; jobid = id })

sent :
    (index : ℕ) (id : ℤ) (y : Session) (m : Outcome Server)
    → IsOwner index id y
    → Yields (IsOwner index id) (m >>= λ t. ok (with_server y t))
sent index id y (ok t) h = h
sent index id y died h = tt
sent index id y endless h = tt

run_again-IsOwner :
    (index : ℕ) (id : ℤ) (y : Session) (sock : ℤ) (p : Job)
    → IsOwner index id y
    → Yields (IsOwner index id) (run_again y sock p)
unfolding run_again
run_again-IsOwner index id y sock p h =
    elim (Bool-cases (is_running (reconnected sock p).state && p.pid ==ℤ pos 0)) [
      | inl r ↦ rw r (sent index id y (s_send_runjob y.server sock p.jobid) h)
      | inr r ↦ rw r h
    ]

accepted :
    (z : Session) (index : ℕ) (c : Conn) (id pid : ℤ) (p : Job)
    → get_job z.server id ≡ some p
    → is_refused p c.user pid ≡ false
    → reconnect_request z index c id pid ≡ run_again (hand_over z index c id) c.socket p
unfolding reconnect_request
accepted z index c id pid p g t = rw (reconnect_request, g, t) refl

-- When a client is not refused for its job by RECONNECT, no other connection has that job
-- afterwards.
pub reconnect_request-owner :
    (z y : Session) (index : ℕ) (c : Conn) (id pid : ℤ) (p : Job) (j : ℕ) (d : Conn)
    → get_job z.server id ≡ some p
    → is_refused p c.user pid ≡ false
    → reconnect_request z index c id pid ≡ ok y
    → get_elem? y.conns j ≡ some d
    → j ≢ index
    → carries id d ≡ false
reconnect_request-owner z y index c id pid p j d g t h k n =
    subst (Yields (IsOwner index id)) (sym (accepted z index c id pid p g t) ∙ h)
      (run_again-IsOwner index id _ c.socket p (hand_over-IsOwner z index c id)) j d k n
