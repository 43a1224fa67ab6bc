-- ===== src/Usage/Recount.antt =====
-- jobs.c s_update_slots_usage: what the recount of the slots finds.
use task_spooler_plus.Base.{
  ℕ, zero, suc, ℤ, pos, ◌+ℤ◌, ◌≡◌, refl, ap, ◌∙◌, List, [], ◌∷◌, map, some, Bool, true, false,
  if◌then◌else◌, ◌==◌, Bool-cases, get_elem?, arith, int_laws, parts, sum, inl, inr,
}
use task_spooler_plus.State.{Job, User, Server, is_running}
use task_spooler_plus.Jobs.{change_user}
use task_spooler_plus.Jobs.Balance.{change_user-get}
use task_spooler_plus.Usage.{count_jobs, recount, no_counts, count_running, count_queued}

-- What a job counts for in the three counters of a user, and in the slots in use.
abbrev pub running_slots : Job → ℤ
running_slots p = if is_running p.state then p.num_slots else pos 0

abbrev pub running_slots_of : ℕ → Job → ℤ
running_slots_of u p = if p.user == u then running_slots p else pos 0

abbrev pub running_one_of : ℕ → Job → ℤ
running_one_of u p = if p.user == u then (if is_running p.state then pos 1 else pos 0) else pos 0

abbrev pub queued_one_of : ℕ → Job → ℤ
queued_one_of u p = if p.user == u then (if is_running p.state then pos 0 else pos 1) else pos 0

-- The counters of a user that grew by what the jobs count for.
record Counted (u : ℕ) (ps : List Job) (x x' : User) : Type 0 where
  busy_counted : x'.busy ≡ x.busy +ℤ sum (running_slots_of u) ps
  jobs_counted : x'.jobs ≡ x.jobs +ℤ sum (running_one_of u) ps
  queue_counted : x'.queue ≡ x.queue +ℤ sum (queued_one_of u) ps
  same_limit : x'.max_slots ≡ x.max_slots

abbrev count_one : Job → List User → List User
count_one p us =
    if is_running p.state
    then change_user us p.user (count_running p.num_slots)
    else change_user us p.user count_queued

count_jobs-cons :
    (p : Job) (ps : List Job) (us : List User) (k : ℤ)
    → count_jobs (p ∷ ps) us k ≡ count_jobs ps (count_one p us) (k +ℤ running_slots p)
unfolding count_jobs
count_jobs-cons p ps us k = elim (Bool-cases (is_running p.state)) [
  | inl t ↦ rw t
  | inr t ↦ rw t (ap (count_jobs ps (change_user us p.user count_queued)) (omega int_laws))
]

count_jobs-total :
    (ps : List Job) (us : List User) (k : ℤ) → (count_jobs ps us k).1 ≡ k +ℤ sum running_slots ps
unfolding sum
count_jobs-total [] us k = (unfold count_jobs in omega int_laws)
count_jobs-total (p ∷ ps) us k =
    rw (count_jobs-cons p ps us k)
      (omega (int_laws, parts (count_jobs-total ps (count_one p us) (k +ℤ running_slots p))))

abbrev counted_by : Bool → ℤ → User → User
counted_by true k = count_running k
counted_by false k = count_queued

abbrev counted_as : Job → User → User
counted_as p = counted_by (is_running p.state) p.num_slots

count_one-change :
    (p : Job) (us : List User) → count_one p us ≡ change_user us p.user (counted_as p)
count_one-change p us = elim (Bool-cases (is_running p.state)) [ inl t ↦ rw t | inr t ↦ rw t ]

-- What one job adds to the counters of one user.
abbrev Adds : ℕ → Job → User → User → Type 0
Adds u p x x' =
    (x'.busy ≡ x.busy +ℤ running_slots_of u p)
    × (x'.jobs ≡ x.jobs +ℤ running_one_of u p)
    × (x'.queue ≡ x.queue +ℤ queued_one_of u p)
    × (x'.max_slots ≡ x.max_slots)

unchanged : (a : ℤ) → a ≡ a +ℤ pos 0
unchanged a = omega int_laws

counted_as-Adds :
    (u : ℕ) (p : Job) (x : User) → Adds u p x (if p.user == u then counted_as p x else x)
counted_as-Adds u p x = elim (Bool-cases (p.user == u)) [
  | inl t ↦ rw t (elim (Bool-cases (is_running p.state)) [
    | inl r ↦ rw r (refl, refl, unchanged x.queue, refl)
    | inr r ↦ rw r (unchanged x.busy, unchanged x.jobs, refl, refl)
  ])
  | inr t ↦ rw t (unchanged x.busy, unchanged x.jobs, unchanged x.queue, refl)
]

count_one-get :
    (p : Job) (us : List User) (u : ℕ) (x' : User)
    → get_elem? (count_one p us) u ≡ some x'
    → (x : User) × (get_elem? us u ≡ some x) × Adds u p x x'
count_one-get p us u x' g =
    let (x, h, e) =
      change_user-get us p.user u (counted_as p) x' (rw (count_one-change p us) at g) in
    (x, h, rw e (counted_as-Adds u p x))

count_jobs-Counted :
    (ps : List Job) (us : List User) (k : ℤ) (u : ℕ) (x' : User)
    → get_elem? (count_jobs ps us k).0 u ≡ some x'
    → (x : User) × (get_elem? us u ≡ some x) × Counted u ps x x'
unfolding sum
count_jobs-Counted [] us k u x' g = (
  x',
  (unfold count_jobs in g),
  record {
    busy_counted = unchanged x'.busy;
    jobs_counted = unchanged x'.jobs;
    queue_counted = unchanged x'.queue;
    same_limit = refl;
  },
)
count_jobs-Counted (p ∷ ps) us k u x' g =
    let (y, h, c) =
      count_jobs-Counted ps (count_one p us) (k +ℤ running_slots p) u x'
        (rw (count_jobs-cons p ps us k) at g) in
    let (x, h', (a, b, q, l)) = count_one-get p us u y h in
    (
      x,
      h',
      record {
        busy_counted = omega (int_laws, parts c.busy_counted, parts a);
        jobs_counted = omega (int_laws, parts c.jobs_counted, parts b);
        queue_counted = omega (int_laws, parts c.queue_counted, parts q);
        same_limit = c.same_limit ∙ l;
      },
    )

no_counts-get :
    (us : List User) (u : ℕ) (x' : User)
    → get_elem? (map no_counts us) u ≡ some x'
    → (x : User) × (get_elem? us u ≡ some x) × (x' ≡ no_counts x)
no_counts-get [] u x' g = cc
no_counts-get (y ∷ us) zero x' g = (y, refl, ground arith)
no_counts-get (y ∷ us) (suc u) x' g = no_counts-get us u x' g

-- The counters that a recount leaves: each user's counters are what its jobs count for.
pub record Exact (s : Server) : Type 0 where
  pub slots_exact : s.busy_slots ≡ sum running_slots s.active_jobs
  pub busy_exact :
      (u : ℕ) (x : User)
      → get_elem? s.users u ≡ some x
      → x.busy ≡ sum (running_slots_of u) s.active_jobs
  pub jobs_exact :
      (u : ℕ) (x : User)
      → get_elem? s.users u ≡ some x
      → x.jobs ≡ sum (running_one_of u) s.active_jobs
  pub queue_exact :
      (u : ℕ) (x : User)
      → get_elem? s.users u ≡ some x
      → x.queue ≡ sum (queued_one_of u) s.active_jobs

counted_from_zero : (a b c : ℤ) → b ≡ pos 0 → a ≡ b +ℤ c → a ≡ c
counted_from_zero a b c z h = omega (int_laws, parts z, parts h)

recounted :
    (s : Server) (u : ℕ) (x' : User)
    → get_elem? (recount s).users u ≡ some x'
    → (x'.busy ≡ sum (running_slots_of u) s.active_jobs)
      × (x'.jobs ≡ sum (running_one_of u) s.active_jobs)
      × (x'.queue ≡ sum (queued_one_of u) s.active_jobs)
unfolding recount
recounted s u x' g =
    let (y, h, c) = count_jobs-Counted s.active_jobs (map no_counts s.users) (pos 0) u x' g in
    let (x, _, e) = no_counts-get s.users u y h in
    (
      counted_from_zero x'.busy y.busy _ (ap (λ (v : User). v.busy) e) c.busy_counted,
      counted_from_zero x'.jobs y.jobs _ (ap (λ (v : User). v.jobs) e) c.jobs_counted,
      counted_from_zero x'.queue y.queue _ (ap (λ (v : User). v.queue) e) c.queue_counted,
    )

-- The recount makes the busy slots those of the running jobs, and each user's busy slots, jobs and
-- queue those of the user's own jobs, whatever they were.
pub recount-Exact : (s : Server) → Exact (recount s)
unfolding recount
recount-Exact s = record {
  slots_exact =
      counted_from_zero _ (pos 0) _ refl
        (count_jobs-total s.active_jobs (map no_counts s.users) (pos 0));
  busy_exact = λ u x g. (recounted s u x g).0;
  jobs_exact = λ u x g. (recounted s u x g).1;
  queue_exact = λ u x g. (recounted s u x g).2;
}
