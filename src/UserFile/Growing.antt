-- ===== src/UserFile/Growing.antt =====
-- user.c read_user_file: the users that are known stay in their places, with other slots at most, and
-- no id is twice among the users.
use task_spooler_plus.Base.{
  ℕ, zero, suc, ℤ, pos, ltb_ℤ, ◌==ℤ◌, ◌≤◌, leb, List, [], ◌∷◌, ◌++◌, String, none, false, ◌≡◌, refl,
  ◌∙◌, ap, length, length-append, Bool-cases, Option-cases, inl, inr, arith,
}
use task_spooler_plus.State.{User, Server, Env}
use task_spooler_plus.Jobs.{change_user, with_user}
use task_spooler_plus.Jobs.Balance.{length-change_user}
use task_spooler_plus.Queue.{s_set_max_slots}
use task_spooler_plus.Answers.{find_user}
use task_spooler_plus.UserFile.{
  user_max, with_slots, new_user, enter_user, read_user, read_line, read_lines, is_comment,
  slots_line, scan_user,
}

-- No two users have one id.
abbrev pub Unique : List User → Type 0
Unique [] = Unit
Unique (x ∷ xs) = (find_user xs x.uid ≡ none) × Unique xs

-- The old users in their places, but for their slots, and others after them.
abbrev pub Grown : List User → List User → Type 0
Grown [] us = Unit
Grown (x ∷ xs) [] = ⊥
Grown (x ∷ xs) (y ∷ ys) = (with_slots x.max_slots y ≡ x) × Grown xs ys

pub Grown-refl : (us : List User) → Grown us us
Grown-refl [] = tt
Grown-refl (x ∷ xs) = (refl, Grown-refl xs)

Grown-append : (old us new : List User) → Grown old us → Grown old (us ++ new)
Grown-append [] us new g = tt
Grown-append (x ∷ xs) [] new g = elim g [ ]
Grown-append (x ∷ xs) (y ∷ ys) new g = (g.0, Grown-append xs ys new g.1)

Grown-change_user :
    (old us : List User) (k : ℕ) (n : ℤ)
    → Grown old us
    → Grown old (change_user us k (with_slots n))
Grown-change_user [] us k n g = tt
Grown-change_user (x ∷ xs) [] k n g = elim g [ ]
Grown-change_user (x ∷ xs) (y ∷ ys) zero n g = g
Grown-change_user (x ∷ xs) (y ∷ ys) (suc k) n g = (g.0, Grown-change_user xs ys k n g.1)

find_user-change_user :
    (us : List User) (k : ℕ) (n uid : ℤ)
    → find_user (change_user us k (with_slots n)) uid ≡ find_user us uid
unfolding find_user
find_user-change_user [] k n uid = refl
find_user-change_user (x ∷ xs) zero n uid = refl
find_user-change_user (x ∷ xs) (suc k) n uid = rw (find_user-change_user xs k n uid)

Unique-change_user :
    (us : List User) (k : ℕ) (n : ℤ) → Unique us → Unique (change_user us k (with_slots n))
Unique-change_user [] k n u = tt
Unique-change_user (x ∷ xs) zero n u = u
Unique-change_user (x ∷ xs) (suc k) n u =
    (find_user-change_user xs k n x.uid ∙ u.0, Unique-change_user xs k n u.1)

-- A user that is not found is not the first one, nor among the others.
pub find_user-none :
    (x : User) (xs : List User) (uid : ℤ)
    → find_user (x ∷ xs) uid ≡ none
    → ((x.uid ==ℤ uid) ≡ false) × (find_user xs uid ≡ none)
unfolding find_user
find_user-none x xs uid h = elim (Bool-cases (x.uid ==ℤ uid)) [
  | inl e ↦ absurd (ground (arith, h, e))
  | inr e ↦ elim (Option-cases (find_user xs uid)) [
    | inl f ↦ (e, f)
    | inr (u, f) ↦ absurd (ground (arith, h, e, f))
  ]
]

find_user-append :
    (us : List User) (u : User) (uid : ℤ)
    → find_user us uid ≡ none
    → (u.uid ==ℤ uid) ≡ false
    → find_user (us ++ u ∷ []) uid ≡ none
unfolding find_user
find_user-append [] u uid h e = rw e
find_user-append (x ∷ xs) u uid h e =
    let (n, f) = find_user-none x xs uid h in rw (n, find_user-append xs u uid f e)

Unique-append :
    (us : List User) (u : User) → Unique us → find_user us u.uid ≡ none → Unique (us ++ u ∷ [])
unfolding find_user
Unique-append [] u h f = (refl, tt)
Unique-append (x ∷ xs) u h f =
    let (n, g) = find_user-none x xs u.uid f in
    (find_user-append xs u x.uid h.0 (ground (arith, n)), Unique-append xs u h.1 g)

-- What reading the file may change of the server `s`.
pub record IsReading (s t : Server) : Type 0 where
  pub only_users : t ≡ record s { users = t.users; max_slots = t.max_slots }
  pub grown : Grown s.users t.users
  pub unique : Unique t.users
  pub bounded : length t.users ≤ user_max

pub IsReading-refl : (s : Server) → Unique s.users → length s.users ≤ user_max → IsReading s s
IsReading-refl s u b = record {
  only_users = refl;
  grown = Grown-refl s.users;
  unique = u;
  bounded = b;
}

with_slots-IsReading :
    (s t : Server) (k : ℕ) (n : ℤ) → IsReading s t → IsReading s (with_user t k (with_slots n))
with_slots-IsReading s t k n r = record {
  only_users =
      ap (λ (x : Server). record x { users = change_user t.users k (with_slots n) }) r.only_users;
  grown = Grown-change_user s.users t.users k n r.grown;
  unique = Unique-change_user t.users k n r.unique;
  bounded = rw (length-change_user t.users k (with_slots n)) r.bounded;
}

enter_user-IsReading :
    (s t : Server) (text : String) (uid slots : ℤ)
    → IsReading s t
    → IsReading s (enter_user t text uid slots)
unfolding enter_user
enter_user-IsReading s t text uid slots r = elim (Option-cases (find_user t.users uid)) [
  | inl e ↦ elim (Bool-cases (leb user_max (length t.users))) [
    | inl m ↦ rw (e, enter_user) (rw m r)
    | inr m ↦
        let u = new_user text uid slots in
        let step : IsReading s (record t { users = t.users ++ u ∷ [] }) = record {
          only_users = ap (λ (x : Server). record x { users = t.users ++ u ∷ [] }) r.only_users;
          grown = Grown-append s.users t.users (u ∷ []) r.grown;
          unique = Unique-append t.users u r.unique e;
          bounded = ground (arith, length-append t.users (u ∷ []), m);
        } in
        rw (e, enter_user) (rw m step)
  ]
  | inr (k, e) ↦ rw (e, enter_user) (with_slots-IsReading s t k slots r)
]

set_max_slots-IsReading :
    (s t : Server) (n : ℤ) → IsReading s t → IsReading s (s_set_max_slots t (pos 0) n)
unfolding s_set_max_slots
set_max_slots-IsReading s t n r = elim (Bool-cases (ltb_ℤ (pos 0) n)) [
  | inl e ↦ rw e record {
    only_users = ap (λ (x : Server). record x { max_slots = n }) r.only_users;
    grown = r.grown;
    unique = r.unique;
    bounded = r.bounded;
  }
  | inr e ↦ rw e r
]

read_user-IsReading :
    (e : Env) (line : List ℕ) (s t : Server) → IsReading s t → IsReading s (read_user e line t)
unfolding read_user
read_user-IsReading e line s t r = elim (Option-cases (scan_user line)) [
  | inl f ↦ rw (f, read_user) r
  | inr ((name, slots), f) ↦ elim (Option-cases (e.getpwnam name)) [
    | inl g ↦ rw (f, read_user) (rw g r)
    | inr ((text, uid), g) ↦ rw (f, read_user) (rw g (enter_user-IsReading s t text uid slots r))
  ]
]

read_line-IsReading :
    (e : Env) (line : List ℕ) (s t : Server) → IsReading s t → IsReading s (read_line e line t)
unfolding read_line
read_line-IsReading e line s t r = elim (Bool-cases (is_comment line)) [
  | inl c ↦ rw (c, read_line) r
  | inr c ↦ elim (Option-cases (slots_line line)) [
    | inl f ↦ rw (c, read_line) (rw f (read_user-IsReading e line s t r))
    | inr (n, f) ↦ rw (c, read_line) (rw f (set_max_slots-IsReading s t n r))
  ]
]

pub read_lines-IsReading :
    (e : Env) (ls : List (List ℕ)) (s t : Server) → IsReading s t → IsReading s (read_lines e ls t)
unfolding read_lines
read_lines-IsReading e [] s t r = r
read_lines-IsReading e (line ∷ ls) s t r =
    read_lines-IsReading e ls s (read_line e line t) (read_line-IsReading e line s t r)
