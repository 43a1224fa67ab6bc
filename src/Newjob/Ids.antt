-- ===== src/Newjob/Ids.antt =====
-- jobs.c s_newjob: what it leaves of the ids of the active jobs.
use task_spooler_plus.Base.{
  ℕ, zero, suc, ℤ, pos, negsuc, ◌<ℤ◌, ltb_ℤ, leb_ℤ, ◌==ℤ◌, ◌≡◌, ◌≢◌, refl, ap, sym, ◌∙◌, subst,
  List, [], ◌∷◌, map, some, not, Bool-cases, Option-cases, get_elem?, set, All, arith, inl, inr,
  if◌then◌else◌,
}
use task_spooler_plus.State.{Job, Server, Env, queued, is_wait, is_locked}
use task_spooler_plus.Outcome.{ok, Yields, Yields-bind, Yields-map}
use task_spooler_plus.Jobs.{findjob_idx, find_finished_job}
use task_spooler_plus.Scheduler.Sound.{Distinct}
use task_spooler_plus.Finish.{change_found}
use task_spooler_plus.Newjob.{with_request, with_texts, enter_queue, fill_job}
use task_spooler_plus.Dependencies.{
  Request, find_last_jobid_in_queue, find_last_stored_jobid_finished, add_notify_errorlevel_to,
  depend_on_queued, depend_on_last, add_dependencies, finished_error,
}

abbrev pub ids : List Job → List ℤ
ids ps = map (λ (p : Job). p.jobid) ps

-- No two active jobs have one id, and the next id is above all of them.
pub record IsFresh (s : Server) : Type 0 where
  pub distinct : Distinct s.active_jobs
  pub below : All (λ p. p.jobid <ℤ s.jobids) s.active_jobs

-- The same jobs by id, and the same next id.
abbrev pub SameIds : Server → Server → Type 0
SameIds s t = (ids t.active_jobs ≡ ids s.active_jobs) × (t.jobids ≡ s.jobids)

pub All-ids {ℓ} :
    (P : ℤ → Type ℓ) (ps qs : List Job)
    → ids ps ≡ ids qs
    → All (λ (q : Job). P q.jobid) qs
    → All (λ (p : Job). P p.jobid) ps
All-ids P [] qs e h = tt
All-ids P (p ∷ ps) [] e h = cc
All-ids P (p ∷ ps) (q ∷ qs) e (h, hs) =
    let k : q.jobid ≡ p.jobid = cc in
    let l : ids ps ≡ ids qs = cc in (subst P k h, All-ids P ps qs l hs)

pub Distinct-ids : (ps qs : List Job) → ids ps ≡ ids qs → Distinct qs → Distinct ps
Distinct-ids [] qs e h = tt
Distinct-ids (p ∷ ps) [] e h = cc
Distinct-ids (p ∷ ps) (q ∷ qs) e (h, hs) =
    let k : q.jobid ≡ p.jobid = cc in
    let l : ids ps ≡ ids qs = cc in
    (
      subst (λ i. All (λ (p : Job). p.jobid ≢ i) ps) k (All-ids (λ i. i ≢ q.jobid) ps qs l h),
      Distinct-ids ps qs l hs,
    )

pub SameIds-IsFresh : (s t : Server) → SameIds s t → IsFresh s → IsFresh t
SameIds-IsFresh s t (e, n) h = record {
  distinct = Distinct-ids t.active_jobs s.active_jobs e h.distinct;
  below = rw n (All-ids (λ i. i <ℤ s.jobids) t.active_jobs s.active_jobs e h.below);
}

pub set-ids :
    (ps : List Job) (i : ℕ) (p q : Job)
    → get_elem? ps i ≡ some p
    → q.jobid ≡ p.jobid
    → ids (set ps i q) ≡ ids ps
set-ids [] i p q g e = refl
set-ids (r ∷ ps) zero p q g e =
    let k : r.jobid ≡ p.jobid = ap (λ (v : Job). v.jobid) (let e : r ≡ p = ground arith in e) in
    ap (λ j. j ∷ ids ps) (e ∙ sym k)
set-ids (r ∷ ps) (suc i) p q g e = ap (λ l. r.jobid ∷ l) (set-ids ps i p q g e)

pub change_found-ids :
    (ps : List Job) (id : ℤ) (f : Job → Job)
    → ((p : Job) → (f p).jobid ≡ p.jobid)
    → ids (change_found ps id f) ≡ ids ps
unfolding change_found
change_found-ids [] id f h = refl
change_found-ids (p ∷ ps) id f h = elim (Bool-cases (p.jobid ==ℤ id)) [
  | inl t ↦ rw t (ap (λ j. j ∷ ids ps) (h p))
  | inr t ↦ rw t (ap (λ l. p.jobid ∷ l) (change_found-ids ps id f h))
]

-- What the dependencies of a job leave alone.
abbrev pub Kept : Server → Job → Server → Job → Type 0
Kept s p t q = SameIds s t × (q.jobid ≡ p.jobid)

pub notified-id : (id : ℤ) (p : Job) → (add_notify_errorlevel_to id p).jobid ≡ p.jobid
unfolding add_notify_errorlevel_to
notified-id id p = refl

pub queued-Kept :
    (s : Server) (p : Job) (id k : ℤ)
    → Kept s p (depend_on_queued s p id k).0 (depend_on_queued s p id k).1
unfolding depend_on_queued
queued-Kept s p id k = elim (Option-cases (findjob_idx s id)) [
  | inl n ↦ rw (depend_on_queued, n) ((refl, refl), refl)
  | inr (i, g) ↦
      rw (depend_on_queued, g)
        (
          (
            change_found-ids s.active_jobs id (add_notify_errorlevel_to p.jobid)
                (notified-id p.jobid),
            refl,
          ),
          refl,
        )
]

pub last-Kept : (s : Server) (p : Job) → Yields (λ r. Kept s p r.0 r.1) (depend_on_last s p)
unfolding depend_on_last
last-Kept s p =
    let queued_id = find_last_jobid_in_queue s p.jobid in
    let id = if ltb_ℤ queued_id s.last_finished_jobid then negsuc 0 else queued_id in
    let stored = find_last_stored_jobid_finished s in
    elim (Bool-cases (not (id ==ℤ negsuc 0))) [
      | inl t ↦ rw (depend_on_last, t) (queued-Kept s p id (pos 0))
      | inr t ↦ elim (Bool-cases (ltb_ℤ s.last_finished_jobid stored)) [
        | inr u ↦ rw (depend_on_last, t, u) ((refl, refl), refl)
        | inl u ↦ elim (Option-cases (find_finished_job s stored)) [
          | inl n ↦ rw (depend_on_last, t, u, n) tt
          | inr ((i, q), g) ↦ rw (depend_on_last, t, u, g) ((refl, refl), refl)
        ]
      ]
    ]

pub Kept-trans : (s t r : Server) (p q w : Job) → Kept s p t q → Kept t q r w → Kept s p r w
Kept-trans s t r p q w ((a, b), c) ((a', b'), c') = ((a' ∙ a, b' ∙ b), c' ∙ c)

pub one-Kept :
    (d : ℤ) (s : Server) (p : Job)
    → Yields
        (λ r. Kept s p r.0 r.1)
        (if leb_ℤ p.jobid d
          then ok (s, p)
          else if d ==ℤ negsuc 0
          then depend_on_last s p
          else ok (depend_on_queued s p d (finished_error s d)))
one-Kept d s p = elim (Bool-cases (leb_ℤ p.jobid d)) [
  | inl t ↦ rw t ((refl, refl), refl)
  | inr t ↦ elim (Bool-cases (d ==ℤ negsuc 0)) [
    | inl u ↦ rw (t, u) (last-Kept s p)
    | inr u ↦ rw (t, u) (queued-Kept s p d (finished_error s d))
  ]
]

pub dependencies-Kept :
    (ds : List ℤ) (s : Server) (p : Job) → Yields (λ r. Kept s p r.0 r.1) (add_dependencies ds s p)
unfolding add_dependencies
dependencies-Kept [] s p = ((refl, refl), refl)
dependencies-Kept (d ∷ ds) s p =
    Yields-bind (λ r. Kept s p r.0 r.1) (λ r. Kept s p r.0 r.1) _ _ (one-Kept d s p)
      (λ (r : Server × Job). λ k.
        Yields-map (λ w. Kept r.0 r.1 w.0 w.1) (λ w. Kept s p w.0 w.1) _
          (λ w. λ k'. Kept-trans s r.0 w.0 p r.1 w.1 k k') (dependencies-Kept ds r.0 r.1))

pub enter_queue-ids :
    (s : Server) (i : ℕ) (p q : Job)
    → get_elem? s.active_jobs i ≡ some p
    → q.jobid ≡ p.jobid
    → SameIds s (enter_queue s i q)
unfolding enter_queue
enter_queue-ids s i p q g e = elim (Bool-cases (is_wait q.state)) [
  | inl t ↦ rw (enter_queue, t) (set-ids s.active_jobs i p (record q { state = queued }) g e, refl)
  | inr t ↦ elim (Bool-cases (is_locked q.state)) [
    | inl u ↦ rw (enter_queue, t, u) (set-ids s.active_jobs i p q g e, refl)
    | inr u ↦ rw (enter_queue, t, u) (set-ids s.active_jobs i p q g e, refl)
  ]
]

pub get-ids :
    (ps qs : List Job) (i : ℕ) (p : Job)
    → ids qs ≡ ids ps
    → get_elem? ps i ≡ some p
    → (q : Job) × (get_elem? qs i ≡ some q) × (q.jobid ≡ p.jobid)
get-ids [] qs i p e g = cc
get-ids (x ∷ ps) [] i p e g = cc
get-ids (x ∷ ps) (y ∷ qs) zero p e g =
    let k : y.jobid ≡ x.jobid = cc in
    let l : x ≡ p = ground arith in (y, refl, k ∙ ap (λ (v : Job). v.jobid) l)
get-ids (x ∷ ps) (y ∷ qs) (suc i) p e g = get-ids ps qs i p (let l : ids qs ≡ ids ps = cc in l) g

pub with_request-id : (e : Env) (m : Request) (p : Job) → (with_request e m p).jobid ≡ p.jobid
unfolding with_request
with_request-id e m p = refl

pub with_texts-id : (e : Env) (m : Request) (p : Job) → (with_texts e m p).jobid ≡ p.jobid
unfolding with_texts
with_texts-id e m p = refl

pub fill_job-ids :
    (e : Env) (m : Request) (s : Server) (i : ℕ) (p : Job)
    → get_elem? s.active_jobs i ≡ some p
    → Yields (λ r. SameIds s r.0 × (r.1 ≡ p.jobid)) (fill_job e m s i p)
unfolding fill_job
fill_job-ids e m s i p g =
    Yields-bind (λ r. Kept s (with_request e m p) r.0 r.1) (λ r. SameIds s r.0 × (r.1 ≡ p.jobid)) _
      _ (dependencies-Kept m.depend_on s (with_request e m p))
      (λ (r : Server × Job). λ k.
        let ((a, b), c) = k in
        let (q, g', d) = get-ids s.active_jobs r.0.active_jobs i p a g in
        let n : (with_texts e m r.1).jobid ≡ q.jobid =
          with_texts-id e m r.1 ∙ c ∙ with_request-id e m p ∙ sym d in
        let (a', b') = enter_queue-ids r.0 i q (with_texts e m r.1) g' n in
        ((a' ∙ a, b' ∙ b), c ∙ with_request-id e m p))
