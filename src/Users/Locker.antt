-- ===== src/Users/Locker.antt =====
-- server_user.c s_lock_server, s_check_locker, s_unlock_server and the lock of a queued job.
use task_spooler_plus.Base.{
  ℕ, ℤ, pos, ◌-ℤ◌, ◌≡◌, ◌≢◌, refl, ap, sym, ◌∙◌, Option, none, some, Bool, false, not, Bool-cases,
  inl, inr, ltb_ℤ, ◌==ℤ◌, ◌==◌, ==ℤ_iff, if◌then◌else◌,
}
use task_spooler_plus.State.{send_list_line, Server, Env}
use task_spooler_plus.Outcome.{ok-inj, Outcome, ok}
use task_spooler_plus.Jobs.{emit}
use task_spooler_plus.Users.{s_check_locker, s_lock_server}

locked_at :
    (e : Env) (s : Server) (sock : ℤ) (u : ℕ) (uid : ℤ)
    → uid ≢ pos 0
    → s.user_locker ≡ none
    → s_lock_server e s sock u uid
      ≡ ok (emit (send_list_line sock) (record s { user_locker = some u; locker_time = e.now }))
unfolding s_lock_server
locked_at e s sock u uid n l = elim (Bool-cases (uid ==ℤ pos 0)) [
  | inl t ↦ absurd (n ((==ℤ_iff uid (pos 0)).0 t))
  | inr t ↦ rw t (
      ap
        (λ (o : Option ℕ). elim o as (λ o. Outcome Server) [
          | none ↦
              ok (
                emit (send_list_line sock) (record s { user_locker = some u; locker_time = e.now }))
          | some v ↦ ok (emit (send_list_line sock) s)
        ])
        l)
]

checked_for :
    (e' : Env) (r : Server) (now : ℤ) (u v : ℕ)
    → r.user_locker ≡ some u
    → r.locker_time ≡ now
    → (s_check_locker e' r v).1 ≡ (if ltb_ℤ (pos 30) (e'.now -ℤ now) then false else not (u == v))
unfolding s_check_locker
checked_for e' r now u v l t =
    ap
      (λ (o : Option ℕ).
        (elim o as (λ o. Server × Bool) [
          | none ↦ (r, false)
          | some w ↦
              if ltb_ℤ (pos 30) (e'.now -ℤ r.locker_time)
              then (record r { user_locker = none }, false)
              else (r, not (w == v))
        ]).1)
      l
    ∙ (elim (Bool-cases (ltb_ℤ (pos 30) (e'.now -ℤ now))) [
      | inl c ↦ rw (t, c) refl
      | inr c ↦ rw (t, c) refl
    ])

-- When a user other than root has locked a server that was not locked, s_check_locker refuses all
-- others for 30 seconds but not that user, and nobody after that.
pub s_lock_server-lease :
    (e e' : Env) (s t : Server) (sock : ℤ) (u v : ℕ) (uid : ℤ)
    → uid ≢ pos 0
    → s.user_locker ≡ none
    → s_lock_server e s sock u uid ≡ ok t
    → (s_check_locker e' t v).1 ≡ (if ltb_ℤ (pos 30) (e'.now -ℤ e.now) then false else not (u == v))
s_lock_server-lease e e' s t sock u v uid n l h =
    let k = locked_at e s sock u uid n l in
    let q : emit (send_list_line sock) (record s { user_locker = some u; locker_time = e.now })
        ≡ t =
      ok-inj (sym k ∙ h) in
    checked_for e' t e.now u v (ap (λ (r : Server). r.user_locker) (sym q))
      (ap (λ (r : Server). r.locker_time) (sym q))
