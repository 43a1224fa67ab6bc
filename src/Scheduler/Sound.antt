-- ===== src/Scheduler/Sound.antt =====
-- jobs.c next_run_job: the states in which the dispatch of jobs is correct, what a run of it may do to
-- the counters, and how much work it can still do.
use task_spooler_plus.Base.{
  ℕ, zero, suc, ℤ, ◌+◌, ◌*◌, ◌≤◌, ◌<◌, ◌≤ℤ◌, ◌≡◌, ◌≢◌, refl, sym, ◌∙◌, ◌⊎◌, inl, inr, List, [], ◌∷◌,
  some, get_elem?, set, length, All, All-get, All-set, arith, parts, Bool-cases, ◌==ℤ◌, ==ℤ_iff,
}
use task_spooler_plus.State.{Job, User, Server, Jobstate, queued, pause, holding_client}
use task_spooler_plus.Jobs.{find_idx, findjob_idx, findjob}
use task_spooler_plus.Jobs.Balance.{Accounted}

-- No two jobs of a list have the same id.
abbrev pub Distinct : List Job → Type 0
Distinct [] = Unit {0}
Distinct (p ∷ ps) = All (λ q. q.jobid ≢ p.jobid) ps × Distinct ps

pub record IsSound (s : Server) : Type 0 where
  pub accounted : Accounted s
  pub distinct : Distinct s.active_jobs
  pub turn : s.last_uid < length s.users

-- Counters grow only within their limits.
pub record Grows (s s' : Server) : Type 0 where
  pub same_max : s'.max_slots ≡ s.max_slots
  pub same_count : length s'.users ≡ length s.users
  pub total_within : (s'.busy_slots ≤ℤ s.busy_slots) ⊎ (s'.busy_slots ≤ℤ s'.max_slots)
  pub each_within :
      (u : ℕ) (x' : User)
      → get_elem? s'.users u ≡ some x'
      → (x : User) × (get_elem? s.users u ≡ some x)
        × (x'.max_slots ≡ x.max_slots)
        × ((x'.busy ≤ℤ x.busy) ⊎ (x'.busy ≤ℤ x'.max_slots))

pub Grows-refl : (s : Server) → Grows s s
Grows-refl s = record {
  same_max = refl;
  same_count = refl;
  total_within = inl (omega arith);
  each_within = λ u x h. (x, h, refl, inl (omega arith));
}

within-trans :
    (a b c m l : ℤ) → m ≡ l → (b ≤ℤ a) ⊎ (b ≤ℤ l) → (c ≤ℤ b) ⊎ (c ≤ℤ m) → (c ≤ℤ a) ⊎ (c ≤ℤ m)
within-trans a b c m l e h k = omega (arith, parts e)

pub Grows-trans : {s t r : Server} → Grows s t → Grows t r → Grows s r
Grows-trans {s} {t} {r} a b = record {
  same_max = b.same_max ∙ a.same_max;
  same_count = b.same_count ∙ a.same_count;
  total_within =
      within-trans s.busy_slots t.busy_slots r.busy_slots r.max_slots t.max_slots b.same_max
        a.total_within b.total_within;
  each_within = λ u x h.
      let (y, g, l, w) = b.each_within u x h in
      let (z, g', l', w') = a.each_within u y g in
      (z, g', l ∙ l', within-trans z.busy y.busy x.busy x.max_slots y.max_slots l w' w);
}

-- How often a job in a state may still change its state in a run.
abbrev pub weight : Jobstate → ℕ
weight holding_client = 3
weight queued = 2
weight pause = 1
weight _ = 0

pub work : List Job → ℕ
work [] = 0
work (p ∷ ps) = weight p.state + work ps

pub work-set :
    (ps : List Job) (i : ℕ) (p q : Job)
    → get_elem? ps i ≡ some p
    → work (set ps i q) + weight p.state ≡ work ps + weight q.state
unfolding work
work-set [] i p q h = cc
work-set (r ∷ ps) zero p q h = let e : weight r.state ≡ weight p.state = cc in omega (arith, e)
work-set (r ∷ ps) (suc i) p q h = omega (arith, work-set ps i p q h)

weight-le : (t : Jobstate) → weight t ≤ 3
weight-le queued = omega arith
weight-le _ = omega arith

pub work-le : (ps : List Job) → work ps ≤ 3 * length ps
unfolding work
work-le [] = omega arith
work-le (p ∷ ps) = omega (arith, weight-le p.state, work-le ps)

All-ne-set :
    (ps : List Job) (i : ℕ) (p q r : Job)
    → get_elem? ps i ≡ some p
    → q.jobid ≡ p.jobid
    → All (λ w. w.jobid ≢ r.jobid) ps
    → All (λ w. w.jobid ≢ r.jobid) (set ps i q)
All-ne-set ps i p q r g e h =
    All-set (λ (w : Job). w.jobid ≢ r.jobid) ps i q h
      (λ k. All-get (λ (w : Job). w.jobid ≢ r.jobid) ps i p h g (sym e ∙ k))

pub Distinct-set :
    (ps : List Job) (i : ℕ) (p q : Job)
    → get_elem? ps i ≡ some p
    → q.jobid ≡ p.jobid
    → Distinct ps
    → Distinct (set ps i q)
Distinct-set [] i p q g e d = d
Distinct-set (r ∷ ps) zero p q g e d = let k : q.jobid ≡ r.jobid = e ∙ (cc) in (rw k d.0, d.1)
Distinct-set (r ∷ ps) (suc i) p q g e d =
    (All-ne-set ps i p q r g e d.0, Distinct-set ps i p q g e d.1)

-- With distinct ids a job is found at its own place.
pub find_idx-Distinct :
    (ps : List Job) (i : ℕ) (p : Job)
    → Distinct ps
    → get_elem? ps i ≡ some p
    → find_idx ps p.jobid ≡ some i
unfolding find_idx
find_idx-Distinct [] i p d g = cc
find_idx-Distinct (r ∷ ps) zero p d g =
    let k : r.jobid ≡ p.jobid = cc in rw k (ground (arith, (==ℤ_iff p.jobid p.jobid).1 refl))
find_idx-Distinct (r ∷ ps) (suc i) p d g = elim (Bool-cases (r.jobid ==ℤ p.jobid)) [
  | inl e ↦
      absurd (
        All-get (λ (w : Job). w.jobid ≢ r.jobid) ps i p d.0 g (sym ((==ℤ_iff r.jobid p.jobid).0 e)))
  | inr e ↦ rw (e, find_idx-Distinct ps i p d.1 g)
]

pub findjob-Distinct :
    (s : Server) (i : ℕ) (p : Job)
    → Distinct s.active_jobs
    → get_elem? s.active_jobs i ≡ some p
    → findjob s p.jobid ≡ some (i, p)
unfolding findjob findjob_idx
findjob-Distinct s i p d g = rw (find_idx-Distinct s.active_jobs i p d g, g)

-- The effects and the turn of the users play no part.
pub IsSound-ext :
    (s s' : Server)
    → s'.active_jobs ≡ s.active_jobs
    → s'.users ≡ s.users
    → s'.busy_slots ≡ s.busy_slots
    → s'.last_uid < length s'.users
    → IsSound s
    → IsSound s'
IsSound-ext s s' a us b l h = record {
  accounted = record {
    total = rw (a, b) h.accounted.total;
    each = λ u x g. rw a (h.accounted.each u x (rw us at g));
    each_job = rw a h.accounted.each_job;
  };
  distinct = rw a h.distinct;
  turn = l;
}

pub Grows-ext :
    (s t t' : Server)
    → t'.users ≡ t.users
    → t'.busy_slots ≡ t.busy_slots
    → t'.max_slots ≡ t.max_slots
    → Grows s t
    → Grows s t'
Grows-ext s t t' us b m h = record {
  same_max = rw m h.same_max;
  same_count = rw us h.same_count;
  total_within = rw (b, m) h.total_within;
  each_within = λ u x g. h.each_within u x (rw us at g);
}

-- What one step of the dispatch does: it succeeds in a sound state within the limits, with less
-- work left.
pub record Advances (s s' : Server) : Type 0 where
  pub sound : IsSound s'
  pub grows : Grows s s'
  pub less_work : work s'.active_jobs < work s.active_jobs
