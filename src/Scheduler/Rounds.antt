-- ===== src/Scheduler/Rounds.antt =====
-- jobs.c next_run_job: one round over the users.
use task_spooler_plus.Base.{
  ℕ, zero, suc, ℤ, pos, ◌+◌, ◌%◌, ◌≤◌, ◌<◌, ◌-ℤ◌, ◌≡◌, refl, sym, ap, subst, ◌∙◌, ◌⊎◌, inl, inr,
  List, [], ◌∷◌, none, some, true, false, ltb, leb_ℤ, ◌==ℤ◌, ==ℤ_iff, Bool-cases, Option-cases,
  get_elem?, length, arith,
}
use task_spooler_plus.State.{Job, User, Server, Env}
use task_spooler_plus.Outcome.{ok}
use task_spooler_plus.Scheduler.{find_eligible, dispatch, round}
use task_spooler_plus.Scheduler.Sound.{IsSound, Grows, Grows-refl, Grows-trans, Advances, work}
use task_spooler_plus.Scheduler.Dispatch.{dispatch-Advances}
use task_spooler_plus.Scheduler.Limits.{find_eligible-get, is_eligible-Fits}

get-some {ℓ} :
    {A : Type ℓ} (xs : List A) (i : ℕ) → i < length xs → (x : A) × (get_elem? xs i ≡ some x)
get-some [] i h = elim h [ ]
get-some (x ∷ xs) zero h = (x, refl)
get-some (x ∷ xs) (suc i) h = get-some xs i (omega arith)

abbrev pub free_slots : Server → ℤ
free_slots s = s.max_slots -ℤ s.busy_slots

-- The user whose turn comes after `i` others in the round.
abbrev pub turn_of : Server → ℕ → ℕ
turn_of s i = (s.last_uid + i) % length s.users

-- Nothing of a user can be dispatched: the user has no queue, or no slot is free, or no job passes.
pub record IsIdle (e : Env) (s : Server) (uid : ℕ) : Type 0 where
  pub reason :
      (x : User)
      → get_elem? s.users uid ≡ some x
      → (x.queue ≡ pos 0)
        ⊎ (leb_ℤ (free_slots s) (pos 0) ≡ true)
        ⊎ (find_eligible e s uid x (free_slots s) s.active_jobs ≡ none)

-- What a round does, from `n` jobs dispatched before.
pub record Rounded (e : Env) (s s' : Server) (i k n m : ℕ) : Type 0 where
  pub sound : IsSound s'
  pub grows : Grows s s'
  pub counted : work s'.active_jobs + m ≤ work s.active_jobs + n
  pub no_fewer : n ≤ m
  pub same : m ≡ n → s' ≡ s
  pub idle : m ≡ n → (j : ℕ) → i ≤ j → j < i + k → IsIdle e s (turn_of s j)

round-empty :
    (e : Env) (k i n : ℕ) (s : Server) (x : User)
    → get_elem? s.users (turn_of s i) ≡ some x
    → (x.queue ==ℤ pos 0) ≡ true
    → round e (suc k) i s n ≡ round e k (i + 1) s n
unfolding round
round-empty e k i n s x g q = rw (g, round) (rw q)

round-none :
    (e : Env) (k i n : ℕ) (s : Server) (x : User)
    → get_elem? s.users (turn_of s i) ≡ some x
    → (x.queue ==ℤ pos 0) ≡ false
    → leb_ℤ (free_slots s) (pos 0) ≡ false
    → find_eligible e s (turn_of s i) x (free_slots s) s.active_jobs ≡ none
    → round e (suc k) i s n ≡ round e k (i + 1) s n
unfolding round
round-none e k i n s x g q h f = rw (g, round) (rw (q, h) (rw f))

round-full :
    (e : Env) (k i n : ℕ) (s : Server) (x : User)
    → get_elem? s.users (turn_of s i) ≡ some x
    → leb_ℤ (free_slots s) (pos 0) ≡ true
    → (x.queue ==ℤ pos 0) ≡ false
    → round e (suc k) i s n ≡ ok (s, n)
unfolding round
round-full e k i n s x g h q = rw (g, round) (rw (q, h))

round-dispatch :
    (e : Env) (k i n : ℕ) (s t : Server) (x : User) (j : ℕ) (p : Job)
    → get_elem? s.users (turn_of s i) ≡ some x
    → (x.queue ==ℤ pos 0) ≡ false
    → leb_ℤ (free_slots s) (pos 0) ≡ false
    → find_eligible e s (turn_of s i) x (free_slots s) s.active_jobs ≡ some (j, p)
    → dispatch e s (turn_of s i) j p ≡ ok t
    → round e (suc k) i s n ≡ round e k (i + 1) t (n + 1)
unfolding round
round-dispatch e k i n s t x j p g q h f d = rw (g, round) (rw (q, h) (rw (f, d)))

Rounded-end : (e : Env) (s : Server) (i n : ℕ) → IsSound s → Rounded e s s i 0 n n
Rounded-end e s i n d = record {
  sound = d;
  grows = Grows-refl s;
  counted = omega arith;
  no_fewer = omega arith;
  same = λ h. refl;
  idle = λ h j a b. absurd (omega arith);
}

-- A user for whom nothing is dispatched.
Rounded-skip :
    (e : Env) (s s' : Server) (i k n m : ℕ)
    → IsIdle e s (turn_of s i)
    → Rounded e s s' (i + 1) k n m
    → Rounded e s s' i (suc k) n m
Rounded-skip e s s' i k n m h r = record {
  sound = r.sound;
  grows = r.grows;
  counted = r.counted;
  no_fewer = r.no_fewer;
  same = r.same;
  idle = λ q j a b. elim (Bool-cases (ltb i j)) [
    | inl c ↦ r.idle q j (ground arith) (omega arith)
    | inr c ↦ let d : i ≡ j = ground arith in subst (λ t. IsIdle e s (turn_of s t)) d h
  ];
}

idle_of_full :
    (e : Env) (s : Server) (i k n : ℕ)
    → IsSound s
    → leb_ℤ (free_slots s) (pos 0) ≡ true
    → Rounded e s s i k n n
idle_of_full e s i k n d h = record {
  sound = d;
  grows = Grows-refl s;
  counted = omega arith;
  no_fewer = omega arith;
  same = λ q. refl;
  idle = λ q j a b. record { reason = λ x g. inr (inl h) };
}

Rounded-dispatch :
    (e : Env) (s t s' : Server) (i k n m : ℕ)
    → Advances s t
    → Rounded e t s' (i + 1) k (n + 1) m
    → Rounded e s s' i (suc k) n m
Rounded-dispatch e s t s' i k n m a r = record {
  sound = r.sound;
  grows = Grows-trans a.grows r.grows;
  counted = omega (arith, a.less_work, r.counted);
  no_fewer = omega (arith, r.no_fewer);
  same = λ q. absurd (omega (arith, r.no_fewer));
  idle = λ q. absurd (omega (arith, r.no_fewer));
}

turn_of-lt : (s : Server) (i : ℕ) → IsSound s → turn_of s i < length s.users
turn_of-lt s i d = omega (arith, d.turn)

queue_of :
    (s : Server) (uid : ℕ) (x y : User)
    → get_elem? s.users uid ≡ some x
    → get_elem? s.users uid ≡ some y
    → (x.queue ==ℤ pos 0) ≡ true
    → y.queue ≡ pos 0
queue_of s uid x y g h q =
    let e : x ≡ y = cc in ap (λ (u : User). u.queue) (sym e) ∙ (==ℤ_iff x.queue (pos 0)).0 q

none_of :
    (e : Env) (s : Server) (uid : ℕ) (x y : User)
    → get_elem? s.users uid ≡ some x
    → get_elem? s.users uid ≡ some y
    → find_eligible e s uid x (free_slots s) s.active_jobs ≡ none
    → find_eligible e s uid y (free_slots s) s.active_jobs ≡ none
none_of e s uid x y g h f =
    let k : x ≡ y = cc in
    subst (λ (z : User). find_eligible e s uid z (free_slots s) s.active_jobs ≡ none) k f

-- A round in a sound state succeeds.
pub round-Rounded :
    (e : Env) (k i n : ℕ) (s : Server)
    → IsSound s
    → (s' : Server) × (m : ℕ) × (round e k i s n ≡ ok (s', m)) × Rounded e s s' i k n m
unfolding round
round-Rounded e zero i n s d = (s, n, refl, Rounded-end e s i n d)
round-Rounded e (suc k) i n s d =
    let (x, g) = get-some s.users (turn_of s i) (turn_of-lt s i d) in
    elim (Bool-cases (x.queue ==ℤ pos 0)) [
      | inl q ↦
          let idle : IsIdle e s (turn_of s i) = record {
            reason = λ y h. inl (queue_of s (turn_of s i) x y g h q);
          } in
          let (s', m, eq, r) = round-Rounded e k (i + 1) n s d in
          (s', m, round-empty e k i n s x g q ∙ eq, Rounded-skip e s s' i k n m idle r)
      | inr q ↦ elim (Bool-cases (leb_ℤ (free_slots s) (pos 0))) [
        | inl h ↦ (s, n, round-full e k i n s x g h q, idle_of_full e s i (suc k) n d h)
        | inr h ↦
            elim (Option-cases (find_eligible e s (turn_of s i) x (free_slots s) s.active_jobs)) [
              | inl f ↦
                  let idle : IsIdle e s (turn_of s i) = record {
                    reason = λ y g'. inr (inr (none_of e s (turn_of s i) x y g g' f));
                  } in
                  let (s', m, eq, r) = round-Rounded e k (i + 1) n s d in
                  (s', m, round-none e k i n s x g q h f ∙ eq, Rounded-skip e s s' i k n m idle r)
              | inr ((j, p), f) ↦
                  let (gj, t) =
                    find_eligible-get e s (turn_of s i) x (free_slots s) s.active_jobs j p f in
                  let fits = is_eligible-Fits e s (turn_of s i) x (free_slots s) p t in
                  let (u, eu, a) = dispatch-Advances e s (turn_of s i) x j p d g gj fits in
                  let (s', m, eq, r) = round-Rounded e k (i + 1) (n + 1) u a.sound in
                  (
                    s',
                    m,
                    round-dispatch e k i n s u x j p g q h f eu ∙ eq,
                    Rounded-dispatch e s u s' i k n m a r,
                  )
            ]
      ]
    ]
