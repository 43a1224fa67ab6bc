-- ===== src/Newjob/Fresh.antt =====
-- jobs.c s_newjob, s_add_job: the ids of the active jobs are distinct and below the next id.
use task_spooler_plus.Base.{
  ℕ, zero, suc, ℤ, pos, negsuc, ◌+ℤ◌, ◌<ℤ◌, ◌≤ℤ◌, parts, +ℤ_parts, get_elem?-set_self, lt_of_get,
  ltb_ℤ, ◌==ℤ◌, ==ℤ_iff, ◌≡◌, ◌≢◌, refl, sym, ◌∙◌, subst, List, [], ◌∷◌, ◌++◌, Option, none, some,
  false, ◌||◌, Bool-cases, Option-cases, get_elem?, remove_at, All, All-append, All-remove_at,
  arith, int_laws, inl, inr, ◌⊎◌, if◌then◌else◌,
}
use task_spooler_plus.State.{Job, Server, Env, is_delink, is_wait, is_locked, send_list_line}
use task_spooler_plus.Outcome.{Yields, Yields-map}
use task_spooler_plus.Jobs.{emit, find_idx, findjob_idx, findjob}
use task_spooler_plus.Jobs.Lookup.{find_idx-get, findjob-get}
use task_spooler_plus.Scheduler.Sound.{Distinct}
use task_spooler_plus.Finish.Ending.{get-append_last}
use task_spooler_plus.Newjob.{
  newjobptr, find_or_create, with_owner, fill_job, asks_too_much, take_place, place_job,
}
use task_spooler_plus.Dependencies.{Request}
use task_spooler_plus.Newjob.Ids.{IsFresh, SameIds, SameIds-IsFresh, set-ids, get-ids, fill_job-ids}

append-Distinct :
    (ps : List Job) (p : Job)
    → All (λ q. q.jobid ≢ p.jobid) ps
    → Distinct ps
    → Distinct (ps ++ p ∷ [])
append-Distinct [] p h d = (tt, tt)
append-Distinct (q ∷ ps) p (h, hs) (d, ds) = (
  All-append (λ r. r.jobid ≢ q.jobid) ps (p ∷ []) d ((λ e. h (sym e)), tt),
  append-Distinct ps p hs ds,
)

pub All-map {κ μ} :
    (P : Job → Type κ) (Q : Job → Type μ) (ps : List Job)
    → ((p : Job) → P p → Q p)
    → All P ps
    → All Q ps
All-map P Q [] f h = tt
All-map P Q (p ∷ ps) f (h, hs) = (f p h, All-map P Q ps f hs)

not_found : (ps : List Job) (id : ℤ) → find_idx ps id ≡ none → All (λ p. p.jobid ≢ id) ps
unfolding find_idx
not_found [] id h = tt
not_found (p ∷ ps) id h = elim (Bool-cases (p.jobid ==ℤ id)) [
  | inl t ↦ absurd (ground arith)
  | inr t ↦ elim (Option-cases (find_idx ps id)) [
    | inl n ↦ ((λ e. ground (arith, (==ℤ_iff p.jobid id).1 e)), not_found ps id n)
    | inr (i, g) ↦ absurd (ground arith)
  ]
]

findjob-none : (s : Server) (id : ℤ) → findjob s id ≡ none → All (λ p. p.jobid ≢ id) s.active_jobs
unfolding findjob findjob_idx
findjob-none s id h = elim (Option-cases (find_idx s.active_jobs id)) [
  | inl n ↦ not_found s.active_jobs id n
  | inr (i, g) ↦ let (p, k, _) = find_idx-get s.active_jobs id i g in absurd (ground arith)
]

pub joined-IsFresh :
    (s : Server) (p : Job) (next : ℤ)
    → IsFresh s
    → All (λ q. q.jobid ≢ p.jobid) s.active_jobs
    → p.jobid <ℤ next
    → s.jobids ≤ℤ next
    → IsFresh (record s { active_jobs = s.active_jobs ++ p ∷ []; jobids = next })
joined-IsFresh s p next h k l n = record {
  distinct = append-Distinct s.active_jobs p k h.distinct;
  below =
      All-append (λ q. q.jobid <ℤ next) s.active_jobs (p ∷ [])
        (All-map (λ q. q.jobid <ℤ s.jobids) (λ q. q.jobid <ℤ next) s.active_jobs
          (λ q. λ b. omega (arith, b, n)) h.below)
        (l, tt);
}

-- The place of a new job, whose id is the next one or that of the request.
Joined : Server → ℤ → Type 0
Joined s id =
    IsFresh (newjobptr s id).0
    × (get_elem? (newjobptr s id).0.active_jobs (newjobptr s id).1 ≡ some (newjobptr s id).2)

newjobptr-next : (s : Server) → IsFresh s → Joined s (pos 0)
unfolding newjobptr Joined
newjobptr-next s h = (
  joined-IsFresh s _ (s.jobids +ℤ pos 1) h
      (All-map (λ q. q.jobid <ℤ s.jobids) (λ q. q.jobid ≢ s.jobids) s.active_jobs
        (λ q. λ b. λ e. omega (arith, b, parts e)) h.below)
      (omega int_laws) (omega int_laws),
  get-append_last s.active_jobs _,
)

pub next_above :
    (n id : ℤ)
    → (id <ℤ (if ltb_ℤ id n then n else id +ℤ pos 1))
      × (n ≤ℤ (if ltb_ℤ id n then n else id +ℤ pos 1))
next_above n id = elim (Bool-cases (ltb_ℤ id n)) [
  | inl t ↦ rw t (ground arith, omega arith)
  | inr t ↦ rw t (omega int_laws, ground (arith, +ℤ_parts id (pos 1)))
]

newjobptr-given :
    (s : Server) (id : ℤ)
    → IsFresh s
    → (id ==ℤ pos 0) ≡ false
    → All (λ p. p.jobid ≢ id) s.active_jobs
    → Joined s id
unfolding newjobptr Joined
newjobptr-given s id h t k = rw t (
  joined-IsFresh s _ _ h k (next_above s.jobids id).0 (next_above s.jobids id).1,
  get-append_last s.active_jobs _,
)

-- What `find_or_create` finds or makes.
Placed : Server → Option (Server × ℕ × Job) → Type 0
Placed s none = Unit
Placed s (some r) = IsFresh r.0 × (get_elem? r.0.active_jobs r.1 ≡ some r.2)

find_or_create-Placed : (s : Server) (id : ℤ) → IsFresh s → Placed s (find_or_create s id)
unfolding find_or_create Placed Joined
find_or_create-Placed s id h = elim (Bool-cases (id ==ℤ pos 0)) [
  | inl t ↦
      let e : id ≡ pos 0 = (==ℤ_iff id (pos 0)).0 t in
      rw (find_or_create, t) (subst (Joined s) (sym e) (newjobptr-next s h))
  | inr t ↦ elim (Option-cases (findjob s id)) [
    | inl n ↦ rw (find_or_create, t, n) (newjobptr-given s id h t (findjob-none s id n))
    | inr ((i, p), f) ↦
        elim (Bool-cases (is_delink p.state || is_wait p.state || is_locked p.state)) [
          | inl u ↦ rw (find_or_create, t, f, u) (h, (findjob-get s id i p f).0)
          | inr u ↦ rw (find_or_create, t, f, u) tt
        ]
  ]
]

placed :
    (s t : Server) (i : ℕ) (p : Job)
    → Placed s (some (t, i, p))
    → IsFresh t × (get_elem? t.active_jobs i ≡ some p)
unfolding Placed
placed s t i p h = h

remove-IsFresh :
    (s : Server) (i : ℕ)
    → IsFresh s
    → IsFresh (record s { active_jobs = remove_at s.active_jobs i })
remove-IsFresh s i h = record {
  distinct = remove-Distinct s.active_jobs i h.distinct;
  below = All-remove_at (λ p. p.jobid <ℤ s.jobids) s.active_jobs i h.below;
}
  where
    remove-Distinct : (ps : List Job) (i : ℕ) → Distinct ps → Distinct (remove_at ps i)
    remove-Distinct [] i d = d
    remove-Distinct (p ∷ ps) zero (d, ds) = ds
    remove-Distinct (p ∷ ps) (suc i) (d, ds) =
        (All-remove_at (λ q. q.jobid ≢ p.jobid) ps i d, remove-Distinct ps i ds)

-- What a request for a job answers: an id of the queue, or -1.
pub IsAnswer : Server × ℤ → Type 0
IsAnswer r =
    IsFresh r.0
    × ((r.1 ≡ negsuc 0)
        ⊎ ((i : ℕ) × (q : Job) × (get_elem? r.0.active_jobs i ≡ some q) × (q.jobid ≡ r.1)))

filled-IsAnswer :
    (e : Env) (m : Request) (s : Server) (i : ℕ) (p : Job)
    → IsFresh s
    → get_elem? s.active_jobs i ≡ some p
    → Yields IsAnswer (fill_job e m s i p)
unfolding IsAnswer
filled-IsAnswer e m s i p h g =
    Yields-map (λ r. SameIds s r.0 × (r.1 ≡ p.jobid)) IsAnswer _
      (λ (r : Server × ℤ). λ k.
        let (w, n) = k in
        let (q, g', d) = get-ids s.active_jobs r.0.active_jobs i p w.0 g in
        (SameIds-IsFresh s r.0 w h, inr (i, q, g', d ∙ sym n)))
      (fill_job-ids e m s i p g)

owned-id : (sock : ℤ) (m : Request) (u : ℕ) (p : Job) → (with_owner sock m u p).jobid ≡ p.jobid
unfolding with_owner
owned-id sock m u p = refl

found-IsAnswer :
    (e : Env) (sock : ℤ) (m : Request) (u : ℕ) (t : Server) (i : ℕ) (p : Job)
    → IsFresh t
    → get_elem? t.active_jobs i ≡ some p
    → Yields IsAnswer (take_place e sock m u t i p)
unfolding take_place IsAnswer
found-IsAnswer e sock m u t i p h g =
    let q = with_owner sock m u p in
    elim (Option-cases (get_elem? t.users u)) [
      | inl n ↦ rw (take_place, n) tt
      | inr (x, g') ↦ elim (Bool-cases (asks_too_much x q)) [
        | inl a ↦ rw (take_place, g', a) (remove-sent t i h, inl refl)
        | inr a ↦
            rw (take_place, g', a)
              (filled-IsAnswer e m _ i q
                (SameIds-IsFresh t _ (set-ids t.active_jobs i p q g (owned-id sock m u p), refl) h)
                (get_elem?-set_self t.active_jobs i q (lt_of_get t.active_jobs i p g)))
      ]
    ]
  where
    remove-sent :
        (t : Server) (i : ℕ)
        → IsFresh t
        → IsFresh
            (emit (send_list_line sock) (record t { active_jobs = remove_at t.active_jobs i }))
    remove-sent t i h = SameIds-IsFresh _ _ (refl, refl) (remove-IsFresh t i h)

-- From ids that are distinct and below the next id, any request for a job leaves them so, and
-- answers -1 or the id of a job in the queue.
pub place_job-IsFresh :
    (e : Env) (sock : ℤ) (m : Request) (u : ℕ) (s : Server)
    → IsFresh s
    → Yields IsAnswer (place_job e sock m u s)
unfolding place_job IsAnswer
place_job-IsFresh e sock m u s h = elim (Option-cases (find_or_create s m.jobid)) [
  | inl n ↦ rw (place_job, n) (SameIds-IsFresh s _ (refl, refl) h, inl refl)
  | inr ((t, i, p), f) ↦
      let (h', g) =
        (let k = find_or_create-Placed s m.jobid h in placed s t i p (subst (Placed s) f k)) in
      rw (place_job, f) (found-IsAnswer e sock m u t i p h' g)
]
