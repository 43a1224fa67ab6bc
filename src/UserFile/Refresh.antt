-- ===== src/UserFile/Refresh.antt =====
-- server_user.c s_refresh_users: the users of the server stay as they are, and others come after them.
use task_spooler_plus.Base.{
  ℕ, suc, ℤ, ◌==ℤ◌, ==ℤ_refl, ==ℤ_iff, ◌≤◌, List, [], ◌∷◌, ◌++◌, Option, some, none, true, false,
  ◌&&◌, get_elem?, ◌≡◌, refl, ◌⊎◌, ◌∙◌, sym, ap, subst, length, get-middle, append_assoc,
  Bool-cases, inl, inr, arith,
}
use task_spooler_plus.State.{User, Server, Env, send_list_line}
use task_spooler_plus.Outcome.{Outcome, ok, died, ◌>>=◌}
use task_spooler_plus.Jobs.{emit}
use task_spooler_plus.Usage.{s_update_slots_usage}
use task_spooler_plus.Answers.{find_user}
use task_spooler_plus.UserFile.{
  user_max, with_slots, read_lines, read_user_file, snapshot, is_unchanged, roll_back,
  answer_refresh, s_refresh_users,
}
use task_spooler_plus.UserFile.Growing.{Unique, Grown, IsReading-refl, read_lines-IsReading}

find_user_other :
    (x : User) (xs : List User) (uid : ℤ) (k : ℕ)
    → (x.uid ==ℤ uid) ≡ false
    → find_user xs uid ≡ some k
    → find_user (x ∷ xs) uid ≡ some (suc k)
unfolding find_user
find_user_other x xs uid k e h = rw e (rw h)

find_user_self : (x : User) (xs : List User) → find_user (x ∷ xs) x.uid ≡ some 0
unfolding find_user
find_user_self x xs = rw (==ℤ_refl x.uid)

find_user_middle :
    (pre ys : List User) (y : User)
    → Unique (pre ++ y ∷ ys)
    → find_user (pre ++ y ∷ ys) y.uid ≡ some (length pre)
find_user_middle [] ys y u = find_user_self y ys
find_user_middle (p ∷ pre) ys y u =
    let h = find_user_middle pre ys y u.1 in
    elim (Bool-cases (p.uid ==ℤ y.uid)) [
      | inl e ↦
          let q = (==ℤ_iff p.uid y.uid).0 e in
          let no : none ≡ some (length pre) = sym u.0 ∙ ap (find_user (pre ++ y ∷ ys)) q ∙ h in
          absurd cc
      | inr e ↦ find_user_other p _ y.uid (length pre) e h
    ]

is_unchanged-cons :
    (uid n : ℤ) (old : List (ℤ × ℤ)) (us : List User) (k : ℕ) (y : User)
    → find_user us uid ≡ some k
    → get_elem? us k ≡ some y
    → is_unchanged ((uid, n) ∷ old) us ≡ ((y.max_slots ==ℤ n) && is_unchanged old us)
unfolding is_unchanged
is_unchanged-cons uid n old us k y f g = rw (f, is_unchanged) (rw g)

same_slots : (x y : User) → with_slots x.max_slots y ≡ x → y.max_slots ≡ x.max_slots → y ≡ x
same_slots x y e h = ap (λ n. with_slots n y) h ∙ e

-- When each old user is found with its slots, the old users are there as they were.
is_unchanged-append :
    (old pre us : List User)
    → Unique (pre ++ us)
    → Grown old us
    → is_unchanged (snapshot old) (pre ++ us) ≡ true
    → (new : List User) × (us ≡ old ++ new)
unfolding is_unchanged
is_unchanged-append [] pre us u g h = (us, refl)
is_unchanged-append (x ∷ xs) pre [] u g h = elim g [ ]
is_unchanged-append (x ∷ xs) pre (y ∷ us) u g h =
    let uid : x.uid ≡ y.uid = ap (λ (z : User). z.uid) (sym g.0) in
    let found : find_user (pre ++ y ∷ us) x.uid ≡ some (length pre) =
      ap (find_user (pre ++ y ∷ us)) uid ∙ find_user_middle pre us y u in
    let both : ((y.max_slots ==ℤ x.max_slots) && is_unchanged (snapshot xs) (pre ++ y ∷ us))
        ≡ true =
      sym (
        is_unchanged-cons x.uid x.max_slots (snapshot xs) (pre ++ y ∷ us) (length pre) y found
          (get-middle pre us y))
      ∙ h in
    let one = y ∷ [] in
    let assoc = append_assoc pre one us in
    elim (Bool-cases (y.max_slots ==ℤ x.max_slots)) [
      | inl e ↦
          let (new, q) =
            is_unchanged-append xs (pre ++ one) us (subst Unique (sym assoc) u) g.1
              (ap (is_unchanged (snapshot xs)) assoc ∙ ground (arith, both, e)) in
          (
            new,
            ap (λ zs. y ∷ zs) q
                ∙ ap (λ z. z ∷ (xs ++ new))
                    (same_slots x y g.0 ((==ℤ_iff y.max_slots x.max_slots).0 e)),
          )
      | inr e ↦ absurd (ground (arith, both, e))
    ]

Grown-roll_back : (old us : List User) → Grown old us → roll_back (snapshot old) us ≡ old
unfolding roll_back
Grown-roll_back [] us g = refl
Grown-roll_back (x ∷ xs) [] g = elim g [ ]
Grown-roll_back (x ∷ xs) (y ∷ us) g = rw (g.0, Grown-roll_back xs us g.1)

file_read :
    (e : Env) (s : Server) (lines : List (List ℕ))
    → e.user_file ≡ some lines
    → read_user_file e s ≡ ok (read_lines e lines s)
unfolding read_user_file
file_read e s lines f =
    ap (λ (o : Option (List (List ℕ))). elim o [ none ↦ died | some ls ↦ ok (read_lines e ls s) ]) f

refreshed :
    (e : Env) (s : Server) (sock : ℤ) (lines : List (List ℕ))
    → e.user_file ≡ some lines
    → s_refresh_users e s sock ≡ answer_refresh e sock (snapshot s.users) (read_lines e lines s)
unfolding s_refresh_users
refreshed e s sock lines f =
    ap (λ (o : Outcome Server). o >>= λ t. answer_refresh e sock (snapshot s.users) t)
      (file_read e s lines f)

accepted :
    (e : Env) (sock : ℤ) (old : List (ℤ × ℤ)) (t : Server)
    → is_unchanged old t.users ≡ true
    → answer_refresh e sock old t
      ≡ (s_update_slots_usage e (emit (send_list_line sock) t) >>= λ r. ok r.0)
unfolding answer_refresh
accepted e sock old t k = rw k

rejected :
    (e : Env) (sock : ℤ) (old : List (ℤ × ℤ)) (t : Server)
    → is_unchanged old t.users ≡ false
    → answer_refresh e sock old t
      ≡ ok (emit (send_list_line sock) (record t { users = roll_back old t.users }))
unfolding answer_refresh
rejected e sock old t k = rw k

-- The users are read from a file that can be opened, where no two users have one id and there are
-- not more than USER_MAX. Then s_refresh_users either adds users behind those that it had, which
-- stay as they were, again with no id twice and not more than USER_MAX, and recounts; or it leaves
-- the users as they were. In either case it may have set another number of slots.
pub s_refresh_users-keeps :
    (e : Env) (s : Server) (sock : ℤ) (lines : List (List ℕ))
    → e.user_file ≡ some lines
    → Unique s.users
    → length s.users ≤ user_max
    → (n : ℤ) × (((new : List User) × Unique (s.users ++ new)
          × (length (s.users ++ new) ≤ user_max)
          × (s_refresh_users e s sock ≡ (
              s_update_slots_usage e
                (emit (send_list_line sock) (record s { users = s.users ++ new; max_slots = n }))
              >>= λ r. ok r.0)))
        ⊎ (s_refresh_users e s sock ≡ ok (emit (send_list_line sock) (record s { max_slots = n }))))
s_refresh_users-keeps e s sock lines f u b =
    let t = read_lines e lines s in
    let r = read_lines-IsReading e lines s s (IsReading-refl s u b) in
    elim (Bool-cases (is_unchanged (snapshot s.users) t.users)) [
      | inl k ↦
          let (new, q) = is_unchanged-append s.users [] t.users r.unique r.grown k in
          (
            t.max_slots,
            inl (
              new,
              subst Unique q r.unique,
              rw (← q) r.bounded,
              refreshed e s sock lines f
                  ∙ accepted e sock _ t k
                  ∙ ap
                      (λ (x : Server).
                        s_update_slots_usage e (emit (send_list_line sock) x) >>= λ r. ok r.0)
                      (r.only_users
                        ∙ ap (λ us. record s { users = us; max_slots = t.max_slots }) q),
            ),
          )
      | inr k ↦ (
        t.max_slots,
        inr (
            refreshed e s sock lines f
            ∙ rejected e sock _ t k
            ∙ ap (λ us. ok (emit (send_list_line sock) (record t { users = us })))
                (Grown-roll_back s.users t.users r.grown)
            ∙ ap (λ (x : Server). ok (emit (send_list_line sock) (record x { users = s.users })))
                r.only_users),
      )
    ]
