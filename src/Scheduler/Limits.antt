-- ===== src/Scheduler/Limits.antt =====
-- jobs.c next_run_job: the job that it picks, and the limits that the slots it takes stay within.
use task_spooler_plus.Base.{
  ℕ, ℤ, pos, ◌+ℤ◌, ◌-ℤ◌, ◌≤ℤ◌, ◌≡◌, refl, sym, ◌∙◌, ◌⊎◌, inl, inr, List, [], ◌∷◌, some, true, false,
  get_elem?, arith, int_laws, parts, ◌==◌, Bool-cases, Option-cases,
}
use task_spooler_plus.State.{Job, User, Server, Env, queued, pause}
use task_spooler_plus.Jobs.{put_job, with_user}
use task_spooler_plus.Jobs.Balance.{
  Moves, Untouched-Moves, IsHeld, Moves-Accounted, held_by, change_user-get, length-change_user,
}
use task_spooler_plus.Jobs.Accounting.{started, config_running-ready}
use task_spooler_plus.Scheduler.{
  with_output, find_eligible, is_eligible, can_start, can_resume, resume_at, dequeue_user,
}
use task_spooler_plus.Scheduler.Sound.{IsSound, Grows, Distinct-set}

-- The inner loop returns a job at its place that passes the tests.
pub find_eligible-get :
    (e : Env) (s : Server) (uid : ℕ) (x : User) (free : ℤ) (ps : List Job) (i : ℕ) (p : Job)
    → find_eligible e s uid x free ps ≡ some (i, p)
    → (get_elem? ps i ≡ some p) × (is_eligible e s uid x free p ≡ true)
unfolding find_eligible
find_eligible-get e s uid x free [] i p h = cc
find_eligible-get e s uid x free (q ∷ ps) i p h = elim (Bool-cases (is_eligible e s uid x free q)) [
  | inl t ↦ ground arith
  | inr t ↦ elim (Option-cases (find_eligible e s uid x free ps)) [
    | inl n ↦ absurd (ground arith)
    | inr (r, f) ↦ ground (arith, find_eligible-get e s uid x free ps r.0 r.1 f)
  ]
]

-- What the tests say of the job that passes.
pub record Fits (uid : ℕ) (x : User) (free : ℤ) (p : Job) : Type 0 where
  pub owner : p.user ≡ uid
  pub ready : (p.state ≡ queued) ⊎ (p.state ≡ pause)
  pub fits_free : p.num_slots ≤ℤ free
  pub fits_user : p.num_slots ≤ℤ x.max_slots -ℤ x.busy

pub is_eligible-Fits :
    (e : Env) (s : Server) (uid : ℕ) (x : User) (free : ℤ) (p : Job)
    → is_eligible e s uid x free p ≡ true
    → Fits uid x free p
unfolding is_eligible can_start can_resume
is_eligible-Fits e s uid x free p h = ground arith

pub dequeue-Moves : (s : Server) (k : ℕ) (p : Job) → Moves s p (with_user s k dequeue_user) p
dequeue-Moves s k p = record {
  same_active = refl;
  same_user = refl;
  same_id = refl;
  same_slots = refl;
  same_limit = refl;
  same_turn = refl;
  same_count = length-change_user s.users k dequeue_user;
  moved = refl;
  moved_for = λ u x h.
      let (y, g, f) = change_user-get s.users k u dequeue_user x h in
      let b : x.busy ≡ y.busy = ground arith in (y, g, ground arith, rw b);
}

pub with_output-Moves : (e : Env) (s : Server) (p : Job) → Moves s p s (with_output e p)
unfolding with_output
with_output-Moves e s p = Untouched-Moves _ _ _ _ (ground arith)

pub with_output-state : (e : Env) (p : Job) → (with_output e p).state ≡ p.state
unfolding with_output
with_output-state e p = ground arith

pub with_output-free :
    (e : Env) (p : Job) → p.num_allocated ≡ pos 0 → (with_output e p).num_allocated ≡ pos 0
unfolding with_output
with_output-free e p h = ground arith

pub resume-started :
    (e : Env) (s : Server) (i : ℕ) (p : Job)
    → p.state ≡ pause
    → resume_at e s i p ≡ put_job (started e s p).0 i (started e s p).1
unfolding resume_at
resume-started e s i p st = rw (config_running-ready e s p (inr st), resume_at)

pub Moves-IsSound :
    (s s' : Server) (p p' : Job) (i : ℕ)
    → IsSound s
    → get_elem? s.active_jobs i ≡ some p
    → Moves s p s' p'
    → IsHeld p'
    → IsSound (put_job s' i p')
Moves-IsSound s s' p p' i a g m h = record {
  accounted = Moves-Accounted s s' p p' i a.accounted g m h;
  distinct = rw m.same_active (Distinct-set s.active_jobs i p p' g m.same_id a.distinct);
  turn = rw (m.same_turn, m.same_count) a.turn;
}

pub within_of :
    (b b' a a' n l l' : ℤ)
    → a ≡ pos 0
    → (a' ≡ pos 0) ⊎ (a' ≡ n)
    → b' +ℤ a ≡ b +ℤ a'
    → l' ≡ l
    → n ≤ℤ l -ℤ b
    → (b' ≤ℤ b) ⊎ (b' ≤ℤ l')
within_of b b' a a' n l l' z (inl c) m e f = inl (omega (int_laws, parts z, parts c, parts m))
within_of b b' a a' n l l' z (inr c) m e f =
    inr (omega (int_laws, parts z, parts c, parts m, parts e))

pub grown :
    (x y : User) (u : ℕ) (p p' : Job)
    → p.num_allocated ≡ pos 0
    → (p'.num_allocated ≡ pos 0) ⊎ (p'.num_allocated ≡ p.num_slots)
    → p'.user ≡ p.user
    → x.busy +ℤ held_by u p ≡ y.busy +ℤ held_by u p'
    → x.max_slots ≡ y.max_slots
    → (p.user ≡ u → p.num_slots ≤ℤ y.max_slots -ℤ y.busy)
    → (x.busy ≤ℤ y.busy) ⊎ (x.busy ≤ℤ x.max_slots)
grown x y u p p' z c k m l f = elim (Bool-cases (p.user == u)) [
  | inl t ↦
      let k' : (p'.user == u) ≡ true = rw k t in
      let m' : x.busy +ℤ p.num_allocated ≡ y.busy +ℤ p'.num_allocated = rw (t, k') at m in
      within_of y.busy x.busy p.num_allocated p'.num_allocated p.num_slots y.max_slots x.max_slots z
        c m' l (f (ground arith))
  | inr t ↦
      let k' : (p'.user == u) ≡ false = rw k t in
      let m' : x.busy +ℤ pos 0 ≡ y.busy +ℤ pos 0 = rw (t, k') at m in
      inl (omega (int_laws, parts m'))
]

pub fits_owner :
    (us : List User) (uid u : ℕ) (x y : User) (p : Job)
    → get_elem? us uid ≡ some x
    → get_elem? us u ≡ some y
    → p.user ≡ uid
    → p.num_slots ≤ℤ x.max_slots -ℤ x.busy
    → p.user ≡ u
    → p.num_slots ≤ℤ y.max_slots -ℤ y.busy
fits_owner us uid u x y p g h o f k =
    let e : uid ≡ u = sym o ∙ k in
    let g' : get_elem? us u ≡ some x = rw e at g in let d : x ≡ y = cc in rw d at f

pub Moves-Grows :
    (s s' : Server) (uid : ℕ) (x : User) (p p' : Job) (i : ℕ)
    → p.num_allocated ≡ pos 0
    → (p'.num_allocated ≡ pos 0) ⊎ (p'.num_allocated ≡ p.num_slots)
    → get_elem? s.users uid ≡ some x
    → Fits uid x (s.max_slots -ℤ s.busy_slots) p
    → Moves s p s' p'
    → Grows s (put_job s' i p')
Moves-Grows s s' uid x p p' i z c g f m = record {
  same_max = m.same_limit;
  same_count = m.same_count;
  total_within =
      within_of s.busy_slots s'.busy_slots p.num_allocated p'.num_allocated p.num_slots s.max_slots
        s'.max_slots z c m.moved m.same_limit f.fits_free;
  each_within = λ u w h.
      let (y, g', l, k) = m.moved_for u w h in
      (
        y,
        g',
        l,
        grown w y u p p' z c m.same_user k l
            (fits_owner s.users uid u x y p g g' f.owner f.fits_user),
      );
}
