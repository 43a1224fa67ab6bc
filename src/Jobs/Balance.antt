-- ===== src/Jobs/Balance.antt =====
-- jobs.c: the counters of the server against the slots that its jobs hold, and the relation between
-- two states of a job in the hands of an operation.
use task_spooler_plus.Base.{
  length, ◌∙◌, ℕ, zero, suc, ℤ, pos, ◌+ℤ◌, ◌≡◌, refl, List, [], ◌∷◌, some, if◌then◌else◌, ◌==◌,
  get_elem?, set, All, All-set, arith, int_laws, parts, sum, sum-set, ap,
}
use task_spooler_plus.State.{Job, User, Server, is_running}
use task_spooler_plus.Jobs.{change_user, put_job}

-- The slots that a job holds for a user.
abbrev pub held_by : ℕ → Job → ℤ
held_by u p = if p.user == u then p.num_allocated else pos 0

abbrev pub held : Job → ℤ
held p = p.num_allocated

-- A running job holds its slots, and no other job holds any.
abbrev pub IsHeld : Job → Type 0
IsHeld p = p.num_allocated ≡ (if is_running p.state then p.num_slots else pos 0)

pub record Accounted (s : Server) : Type 0 where
  pub total : s.busy_slots ≡ sum held s.active_jobs
  pub each :
      (u : ℕ) (x : User) → get_elem? s.users u ≡ some x → x.busy ≡ sum (held_by u) s.active_jobs
  pub each_job : All IsHeld s.active_jobs

-- A change of one job, in the hands of an operation, that moves its slots from or to the counters.
pub record Moves (s : Server) (p : Job) (s' : Server) (p' : Job) : Type 0 where
  pub same_active : s'.active_jobs ≡ s.active_jobs
  pub same_user : p'.user ≡ p.user
  pub same_id : p'.jobid ≡ p.jobid
  pub same_slots : p'.num_slots ≡ p.num_slots
  pub same_limit : s'.max_slots ≡ s.max_slots
  pub same_turn : s'.last_uid ≡ s.last_uid
  pub same_count : length s'.users ≡ length s.users
  pub moved : s'.busy_slots +ℤ p.num_allocated ≡ s.busy_slots +ℤ p'.num_allocated
  pub moved_for :
      (u : ℕ) (x' : User)
      → get_elem? s'.users u ≡ some x'
      → (x : User) × (get_elem? s.users u ≡ some x)
        × (x'.max_slots ≡ x.max_slots)
        × (x'.busy +ℤ held_by u p ≡ x.busy +ℤ held_by u p')

pub change_user-get :
    (us : List User) (k u : ℕ) (f : User → User) (x' : User)
    → get_elem? (change_user us k f) u ≡ some x'
    → (x : User) × (get_elem? us u ≡ some x) × (x' ≡ (if k == u then f x else x))
change_user-get [] k u f x' h = cc
change_user-get (y ∷ us) zero zero f x' h = (y, refl, ground arith)
change_user-get (y ∷ us) zero (suc u) f x' h = (x', h, ground arith)
change_user-get (y ∷ us) (suc k) zero f x' h = (y, refl, ground arith)
change_user-get (y ∷ us) (suc k) (suc u) f x' h =
    let (x, g, e) = change_user-get us k u f x' h in (x, g, ground arith)

pub length-change_user :
    (us : List User) (k : ℕ) (f : User → User) → length (change_user us k f) ≡ length us
length-change_user [] k f = refl
length-change_user (y ∷ us) zero f = refl
length-change_user (y ∷ us) (suc k) f = ap suc (length-change_user us k f)

pub Moves-refl : (s : Server) (p : Job) → Moves s p s p
Moves-refl s p = record {
  same_active = refl;
  same_user = refl;
  same_id = refl;
  same_slots = refl;
  same_limit = refl;
  same_turn = refl;
  same_count = refl;
  moved = refl;
  moved_for = λ u x h. (x, h, refl, refl);
}

pub Moves-trans : {s t r : Server} {p q w : Job} → Moves s p t q → Moves t q r w → Moves s p r w
Moves-trans a b = record {
  same_active = cc;
  same_user = cc;
  same_id = cc;
  same_slots = cc;
  same_limit = cc;
  same_turn = b.same_turn ∙ a.same_turn;
  same_count = b.same_count ∙ a.same_count;
  moved = omega (int_laws, parts a.moved, parts b.moved);
  moved_for = λ u x h.
      let (y, g, l, m) = b.moved_for u x h in
      let (z, g', l', m') = a.moved_for u y g in (z, g', cc, omega (int_laws, parts m, parts m'));
}

-- A change that touches neither a counter nor the slots of the job.
abbrev pub Untouched : Server → Job → Server → Job → Type 0
Untouched s p s' p' =
    (s'.active_jobs ≡ s.active_jobs)
    × (s'.users ≡ s.users)
    × (s'.busy_slots ≡ s.busy_slots)
    × (s'.max_slots ≡ s.max_slots)
    × (s'.last_uid ≡ s.last_uid)
    × (p'.user ≡ p.user)
    × (p'.jobid ≡ p.jobid)
    × (p'.num_slots ≡ p.num_slots)
    × (p'.num_allocated ≡ p.num_allocated)

pub Untouched-Moves : (s s' : Server) (p p' : Job) → Untouched s p s' p' → Moves s p s' p'
Untouched-Moves s s' p p' (a, us, b, l, t, k, i, n, h) = record {
  same_active = a;
  same_user = k;
  same_id = i;
  same_slots = n;
  same_limit = l;
  same_turn = t;
  same_count = ap length us;
  moved = rw (b, h);
  moved_for = λ u x g. (x, cc, refl, rw (k, h));
}

-- Writing the job back to its place restores the balance of the server.
pub Moves-Accounted :
    (s s' : Server) (p p' : Job) (i : ℕ)
    → Accounted s
    → get_elem? s.active_jobs i ≡ some p
    → Moves s p s' p'
    → IsHeld p'
    → Accounted (put_job s' i p')
Moves-Accounted s s' p p' i a g m h = record {
  total = omega (
    int_laws,
    parts a.total,
    parts m.moved,
    parts (sum-set held s.active_jobs i p p' g),
    parts (ap (λ (l : List Job). sum held (set l i p')) m.same_active),
  );
  each = λ u x k.
      let (y, g', l, f) = m.moved_for u x k in
      omega (
        int_laws,
        parts (a.each u y g'),
        parts f,
        parts (sum-set (held_by u) s.active_jobs i p p' g),
        parts (ap (λ (l : List Job). sum (held_by u) (set l i p')) m.same_active),
      );
  each_job = rw m.same_active (All-set IsHeld s.active_jobs i p' a.each_job h);
}
