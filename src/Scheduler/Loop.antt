-- ===== src/Scheduler/Loop.antt =====
-- jobs.c next_run_job: the loop of rounds, and what a whole run of the dispatch promises.
use native.Mathlib.Nat.{mod-eq_of_lt}
use task_spooler_plus.Base.{
  ℕ, zero, suc, ℤ, pos, ◌+◌, ◌-◌, ◌*◌, ◌%◌, ◌≤◌, ◌<◌, ◌-ℤ◌, ◌<ℤ◌, ◌≤ℤ◌, ◌≡◌, ◌≢◌, refl, sym, subst,
  ◌∙◌, ◌⊎◌, inl, inr, List, [], ◌∷◌, none, some, true, false, leb, leb_ℤ, ◌==◌, Bool-cases,
  Option-cases, get_elem?, length, All, arith, lt_of_get, -ℤ_parts,
}
use task_spooler_plus.State.{Job, User, Server, Env}
use task_spooler_plus.Outcome.{ok}
use task_spooler_plus.Scheduler.{
  find_eligible, is_eligible, can_start, can_resume, round, run_loop, wake_all_held_clients,
  next_run_job,
}
use task_spooler_plus.Scheduler.Sound.{IsSound, Grows, Grows-refl, Grows-trans, work, work-le}
use task_spooler_plus.Scheduler.Wake.{wake_all_held_clients_lem}
use task_spooler_plus.Scheduler.Rounds.{free_slots, turn_of, IsIdle, round-Rounded}

mod_of : (a u n : ℕ) → u < n → (a ≡ u) ⊎ (a ≡ u + n) → a % n ≡ u
mod_of a u n k (inl e) = rw e (mod-eq_of_lt k)
mod_of a u n k (inr e) = rw e (grind (arith, mod-eq_of_lt))

-- Every user has a turn in a round.
turn_after : (l u n : ℕ) → l < n → u < n → (j : ℕ) × (j < n) × ((l + j) % n ≡ u)
turn_after l u n h k = elim (Bool-cases (leb l u)) [
  | inl c ↦ (u - l, omega arith, mod_of (l + (u - l)) u n k (inl (ground arith)))
  | inr c ↦ (u + n - l, ground arith, mod_of (l + (u + n - l)) u n k (inr (omega arith)))
]

all-IsIdle :
    (e : Env) (s : Server)
    → IsSound s
    → ((j : ℕ) → 0 ≤ j → j < 0 + length s.users → IsIdle e s (turn_of s j))
    → (u : ℕ) → u < length s.users
    → IsIdle e s u
all-IsIdle e s d h u k =
    let (j, a, b) = turn_after s.last_uid u (length s.users) d.turn k in
    subst (IsIdle e s) b (h j (omega arith) (omega arith))

-- What the loop does.
record Ran (e : Env) (s s' : Server) : Type 0 where
  sound : IsSound s'
  grows : Grows s s'
  idle : (u : ℕ) → u < length s'.users → IsIdle e s' u

loop-empty :
    (fuel : ℕ) (e : Env) (s : Server) (n : ℕ)
    → (length s.active_jobs == 0) ≡ true
    → run_loop (suc fuel) e s n ≡ ok (s, n)
unfolding run_loop
loop-empty fuel e s n h = rw h

loop-last :
    (fuel : ℕ) (e : Env) (s s' : Server) (n m : ℕ)
    → (length s.active_jobs == 0) ≡ false
    → round e (length s.users) 0 s 0 ≡ ok (s', m)
    → (m == 0) ≡ true
    → run_loop (suc fuel) e s n ≡ ok (s', n)
unfolding run_loop
loop-last fuel e s s' n m h r z = rw (h, r) (rw z)

loop-more :
    (fuel : ℕ) (e : Env) (s s' : Server) (n m : ℕ)
    → (length s.active_jobs == 0) ≡ false
    → round e (length s.users) 0 s 0 ≡ ok (s', m)
    → (m == 0) ≡ false
    → run_loop (suc fuel) e s n ≡ run_loop fuel e (wake_all_held_clients s') (n + m)
unfolding run_loop
loop-more fuel e s s' n m h r z = rw (h, r) (rw z)

empty_find :
    (e : Env) (s : Server) (u : ℕ) (x : User) (free : ℤ) (ps : List Job)
    → (length ps == 0) ≡ true
    → find_eligible e s u x free ps ≡ none
unfolding find_eligible
empty_find e s u x free [] h = refl
empty_find e s u x free (p ∷ ps) h = absurd (ground arith)

empty-IsIdle : (e : Env) (s : Server) (u : ℕ) → (length s.active_jobs == 0) ≡ true → IsIdle e s u
empty-IsIdle e s u h = record {
  reason = λ x g. inr (inr (empty_find e s u x (free_slots s) s.active_jobs h));
}

fuel_left : (a b c m fuel : ℕ) → a ≤ b → b + m ≤ c + 0 → (m == 0) ≡ false → c < suc fuel → a < fuel
fuel_left a b c m fuel h k q w = ground arith

run_loop-Ran :
    (fuel : ℕ) (e : Env) (s : Server) (n : ℕ)
    → IsSound s
    → work s.active_jobs < fuel
    → (s' : Server) × (m : ℕ) × (run_loop fuel e s n ≡ ok (s', m)) × Ran e s s'
run_loop-Ran zero e s n d w = elim w [ ]
run_loop-Ran (suc fuel) e s n d w = elim (Bool-cases (length s.active_jobs == 0)) [
  | inl z ↦ (
    s,
    n,
    loop-empty fuel e s n z,
    record { sound = d; grows = Grows-refl s; idle = λ u k. empty-IsIdle e s u z },
  )
  | inr z ↦
      let (t, m, eq, r) = round-Rounded e (length s.users) 0 0 s d in
      elim (Bool-cases (m == 0)) [
        | inl q ↦
            let q' : m ≡ 0 = ground arith in
            let idle : (u : ℕ) → u < length t.users → IsIdle e t u =
              subst (λ v. (u : ℕ) → u < length v.users → IsIdle e v u) (sym (r.same q'))
                (all-IsIdle e s d (r.idle q')) in
            (
              t,
              n,
              loop-last fuel e s t n m z eq q,
              record { sound = r.sound; grows = r.grows; idle = idle },
            )
        | inr q ↦
            let (d', g, w', _) = wake_all_held_clients_lem t r.sound in
            let (s', k, eq', a) = run_loop-Ran fuel e (wake_all_held_clients t) (n + m) d' (
              fuel_left (work (wake_all_held_clients t).active_jobs) (work t.active_jobs) _ m fuel
                w' r.counted q w) in
            (
              s',
              k,
              loop-more fuel e s t n m z eq q ∙ eq',
              record {
                sound = a.sound;
                grows = Grows-trans r.grows (Grows-trans g a.grows);
                idle = a.idle;
              },
            )
      ]
]

run-Ran :
    (e : Env) (s : Server)
    → IsSound s
    → (s' : Server) × (m : ℕ) × (next_run_job e s ≡ ok (s', m)) × Ran e s s'
unfolding next_run_job
run-Ran e s d =
    run_loop-Ran (3 * length s.active_jobs + 1) e s 0 d (omega (arith, work-le s.active_jobs))

-- From a sound state the loop of the dispatch ends, by its own tests, before the rounds of the
-- model are used up and without reaching error(), in a sound state.
pub next_run_job-IsSound :
    (e : Env) (s : Server)
    → IsSound s
    → (s' : Server) × (m : ℕ) × (next_run_job e s ≡ ok (s', m)) × IsSound s'
next_run_job-IsSound e s d = let (s', m, eq, r) = run-Ran e s d in (s', m, eq, r.sound)

-- A run of the dispatch gives out no slot above the limits: from a sound state the busy slots of
-- the server end at most where they were or within its number of slots, and those of each user
-- likewise against the user's own limit.
pub next_run_job-Grows :
    (e : Env) (s s' : Server) (m : ℕ) → IsSound s → next_run_job e s ≡ ok (s', m) → Grows s s'
next_run_job-Grows e s s' m d h =
    let (t, k, eq, r) = run-Ran e s d in let q : t ≡ s' = ground arith in subst (Grows s) q r.grows

none_passes :
    (e : Env) (s : Server) (uid : ℕ) (x : User) (free : ℤ) (ps : List Job)
    → find_eligible e s uid x free ps ≡ none
    → All (λ p. is_eligible e s uid x free p ≡ false) ps
unfolding find_eligible
none_passes e s uid x free [] h = tt
none_passes e s uid x free (p ∷ ps) h = elim (Bool-cases (is_eligible e s uid x free p)) [
  | inl t ↦ absurd (ground arith)
  | inr t ↦ elim (Option-cases (find_eligible e s uid x free ps)) [
    | inl n ↦ (t, none_passes e s uid x free ps n)
    | inr (r, f) ↦ absurd (ground arith)
  ]
]

-- From a sound state, when the dispatch ends and a slot is free, no active job of a user with a
-- queue passes the tests for a dispatch.
pub next_run_job-exhausts :
    (e : Env) (s s' : Server) (m : ℕ) (uid : ℕ) (x : User)
    → IsSound s
    → next_run_job e s ≡ ok (s', m)
    → get_elem? s'.users uid ≡ some x
    → x.queue ≢ pos 0
    → pos 0 <ℤ free_slots s'
    → All (λ p. is_eligible e s' uid x (free_slots s') p ≡ false) s'.active_jobs
next_run_job-exhausts e s s' m uid x d h g nz f =
    let (t, k, eq, r) = run-Ran e s d in
    let q : t ≡ s' = ground arith in
    let idle = subst (λ v. (u : ℕ) → u < length v.users → IsIdle e v u) q r.idle in
    elim ((idle uid (lt_of_get s'.users uid x g)).reason x g) [
      | inl z ↦ absurd (nz z)
      | inr (inl z) ↦ absurd (ground arith)
      | inr (inr z) ↦ none_passes e s' uid x (free_slots s') s'.active_jobs z
    ]

-- A user whose limit is not positive and whose busy slots are not negative is never served a job
-- that needs a slot.
pub is_eligible-zero_limit :
    (e : Env) (s : Server) (uid : ℕ) (x : User) (free : ℤ) (p : Job)
    → x.max_slots ≤ℤ pos 0
    → pos 0 ≤ℤ x.busy
    → pos 0 <ℤ p.num_slots
    → is_eligible e s uid x free p ≡ false
unfolding is_eligible can_start can_resume
is_eligible-zero_limit e s uid x free p l b n =
    elim (Bool-cases (leb_ℤ p.num_slots (x.max_slots -ℤ x.busy))) [
      | inl t ↦ absurd (ground (arith, -ℤ_parts x.max_slots x.busy))
      | inr t ↦ ground arith
    ]
