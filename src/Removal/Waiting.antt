-- ===== src/Removal/Waiting.antt =====
-- notify.c: the list of the clients that wait, the part of one job and that of the others.
use task_spooler_plus.Base.{
  ℤ, ◌≡◌, refl, ap, List, [], ◌∷◌, ◌++◌, Bool, true, false, ◌||◌, ◌==ℤ◌, ==ℤ_refl, if◌then◌else◌,
  arith,
}
use task_spooler_plus.State.{Server, Notify, Effect, send_waitjob_ok}
use task_spooler_plus.Outcome.{ok}
use task_spooler_plus.Notify.{in_notify_list, remove_socket, check_notify, check_notifies}

-- The entries of the other jobs, in order.
unfoldable pub others : ℤ → List Notify → List Notify
others id [] = []
others id (n ∷ ns) = if n.jobid ==ℤ id then others id ns else n ∷ others id ns

-- The answers to the clients that wait for a job, the latest first.
unfoldable pub answers : ℤ → ℤ → List Notify → List Effect → List Effect
answers id level [] out = out
answers id level (n ∷ ns) out =
    answers id level ns (if n.jobid ==ℤ id then send_waitjob_ok n.socket level ∷ out else out)

unfoldable pub has_socket : List Notify → ℤ → Bool
has_socket [] sock = false
has_socket (n ∷ ns) sock = (n.socket ==ℤ sock) || has_socket ns sock

-- No client waits twice.
abbrev pub OwnSockets : List Notify → Type 0
OwnSockets [] = Unit
OwnSockets (n ∷ ns) = (has_socket ns n.socket ≡ false) × OwnSockets ns

has_socket-append :
    (pre ns : List Notify) (n : Notify) (x : ℤ)
    → has_socket (pre ++ n ∷ ns) x ≡ false
    → ((n.socket ==ℤ x) ≡ false) × (has_socket (pre ++ ns) x ≡ false)
unfolding has_socket
has_socket-append [] ns n x h = (ground (arith, h), ground (arith, h))
has_socket-append (p ∷ pre) ns n x h =
    let tail : has_socket (pre ++ n ∷ ns) x ≡ false = ground (arith, h) in
    let (a, b) = has_socket-append pre ns n x tail in (a, ground (arith, h, b))

pub OwnSockets-remove :
    (pre ns : List Notify) (n : Notify) → OwnSockets (pre ++ n ∷ ns) → OwnSockets (pre ++ ns)
OwnSockets-remove [] ns n o = o.1
OwnSockets-remove (p ∷ pre) ns n o =
    ((has_socket-append pre ns n p.socket o.0).1, OwnSockets-remove pre ns n o.1)

pub remove_socket-own :
    (pre ns : List Notify) (n : Notify)
    → OwnSockets (pre ++ n ∷ ns)
    → remove_socket (pre ++ n ∷ ns) n.socket ≡ pre ++ ns
unfolding remove_socket
remove_socket-own [] ns n o = rw (==ℤ_refl n.socket) refl
remove_socket-own (p ∷ pre) ns n o =
    let e = (has_socket-append pre ns n p.socket o.0).0 in
    let f : (p.socket ==ℤ n.socket) ≡ false = ground (arith, e) in
    rw f (ap (λ l. p ∷ l) (remove_socket-own pre ns n o.1))

pub in_notify_list-append :
    (pre ns : List Notify) (id : ℤ)
    → in_notify_list pre id ≡ false
    → in_notify_list (pre ++ ns) id ≡ in_notify_list ns id
unfolding in_notify_list
in_notify_list-append [] ns id h = refl
in_notify_list-append (p ∷ pre) ns id h =
    let a : (p.jobid ==ℤ id) ≡ false = ground (arith, h) in
    let b : in_notify_list pre id ≡ false = ground (arith, h) in
    rw a (in_notify_list-append pre ns id b)

-- Nobody waits for the job.
pub check_notifies-none :
    (ns : List Notify) (id level : ℤ) (s : Server) (out : List Effect)
    → in_notify_list ns id ≡ false
    → (check_notifies ns id s ≡ ok s) × (others id ns ≡ ns) × (answers id level ns out ≡ out)
unfolding check_notifies in_notify_list others answers check_notify
check_notifies-none [] id level s out h = (refl, refl, refl)
check_notifies-none (n ∷ ns) id level s out h =
    let a : (n.jobid ==ℤ id) ≡ false = ground (arith, h) in
    let b : in_notify_list ns id ≡ false = ground (arith, h) in
    let (p, q, r) = check_notifies-none ns id level s out b in
    (rw a p, rw a (ap (λ l. n ∷ l) q), rw a r)

pub others-own :
    (n : Notify) (ns : List Notify) (id : ℤ)
    → (n.jobid ==ℤ id) ≡ true
    → others id (n ∷ ns) ≡ others id ns
unfolding others
others-own n ns id e = rw e refl

pub others-other :
    (n : Notify) (ns : List Notify) (id : ℤ)
    → (n.jobid ==ℤ id) ≡ false
    → others id (n ∷ ns) ≡ n ∷ others id ns
unfolding others
others-other n ns id e = rw e refl

pub answers-own :
    (n : Notify) (ns : List Notify) (id level : ℤ) (out : List Effect)
    → (n.jobid ==ℤ id) ≡ true
    → answers id level (n ∷ ns) out ≡ answers id level ns (send_waitjob_ok n.socket level ∷ out)
unfolding answers
answers-own n ns id level out e = rw e refl

pub answers-other :
    (n : Notify) (ns : List Notify) (id level : ℤ) (out : List Effect)
    → (n.jobid ==ℤ id) ≡ false
    → answers id level (n ∷ ns) out ≡ answers id level ns out
unfolding answers
answers-other n ns id level out e = rw e refl
