-- ===== src/Newjob/Balance.antt =====
-- jobs.c s_newjob after its recount: a new job holds no slot, and the counters stay in step with the
-- jobs.
use task_spooler_plus.Base.{
  ℕ, zero, suc, ℤ, pos, negsuc, ◌+ℤ◌, ◌==ℤ◌, leb_ℤ, ltb_ℤ, ◌≡◌, refl, ap, sym, ◌∙◌, List, [], ◌∷◌,
  some, false, not, if◌then◌else◌, get_elem?, All, All-set, Bool-cases, Option-cases, inl, inr,
  arith, int_laws, parts, sum, sum-set,
}
use task_spooler_plus.State.{
  Effect, insert_db, jobs_table, Job, Server, is_running, is_wait, is_locked, queued,
}
use task_spooler_plus.Outcome.{ok, Yields, Yields-bind}
use task_spooler_plus.Jobs.{findjob_idx, find_finished_job, emit, put_job}
use task_spooler_plus.Jobs.Balance.{Accounted, IsHeld, held, held_by}
use task_spooler_plus.Jobs.Loops.{with_user-Accounted}
use task_spooler_plus.Finish.{change_found}
use task_spooler_plus.Dependencies.{
  add_notify_errorlevel_to, depend_on_queued, depend_on_last, add_dependencies,
  find_last_jobid_in_queue, find_last_stored_jobid_finished, finished_error,
}
use task_spooler_plus.Newjob.{add_queued, enter_queue}

-- A job that holds no slot and does not run.
abbrev pub IsFree : Job → Type 0
IsFree p = (p.num_allocated ≡ pos 0) × (is_running p.state ≡ false)

free-IsHeld : (p : Job) → IsFree p → IsHeld p
free-IsHeld p (z, r) = ground (arith, z, r)

free_held_by : (u : ℕ) (p : Job) → p.num_allocated ≡ pos 0 → held_by u p ≡ pos 0
free_held_by u p h = ground arith

-- One free job takes the place of another.
pub free-Accounted :
    (s : Server) (i : ℕ) (w q : Job)
    → Accounted s
    → get_elem? s.active_jobs i ≡ some w
    → w.num_allocated ≡ pos 0
    → IsFree q
    → Accounted (put_job s i q)
free-Accounted s i w q a g z f = record {
  total =
      omega
        (int_laws, parts a.total, parts (sum-set held s.active_jobs i w q g), parts z, parts f.0);
  each = λ u x k. omega (
    int_laws,
    parts (a.each u x k),
    parts (sum-set (held_by u) s.active_jobs i w q g),
    parts (free_held_by u w z),
    parts (free_held_by u q f.0),
  );
  each_job = All-set IsHeld s.active_jobs i q a.each_job (free-IsHeld q f);
}

sum-change_found :
    (w : Job → ℤ) (ps : List Job) (id : ℤ) (f : Job → Job)
    → ((p : Job) → w (f p) ≡ w p)
    → sum w (change_found ps id f) ≡ sum w ps
unfolding change_found sum
sum-change_found w [] id f h = refl
sum-change_found w (p ∷ ps) id f h = elim (Bool-cases (p.jobid ==ℤ id)) [
  | inl t ↦ rw t (rw (h p) refl)
  | inr t ↦ rw t (ap (λ k. w p +ℤ k) (sum-change_found w ps id f h))
]

All-change_found :
    (ps : List Job) (id : ℤ) (f : Job → Job)
    → ((p : Job) → IsHeld p → IsHeld (f p))
    → All IsHeld ps
    → All IsHeld (change_found ps id f)
unfolding change_found
All-change_found [] id f h k = tt
All-change_found (p ∷ ps) id f h k = elim (Bool-cases (p.jobid ==ℤ id)) [
  | inl t ↦ rw t (h p k.0, k.1)
  | inr t ↦ rw t (k.0, All-change_found ps id f h k.1)
]

-- The job at a place holds no slot.
abbrev pub FreeAt : List Job → ℕ → Type 0
FreeAt ps i = (w : Job) × (get_elem? ps i ≡ some w) × (w.num_allocated ≡ pos 0)

FreeAt-change_found :
    (ps : List Job) (id : ℤ) (f : Job → Job) (i : ℕ)
    → ((p : Job) → (f p).num_allocated ≡ p.num_allocated)
    → FreeAt ps i
    → FreeAt (change_found ps id f) i
unfolding change_found
FreeAt-change_found [] id f i h k = k
FreeAt-change_found (p ∷ ps) id f zero h (w, g, z) =
    let q : p ≡ w = cc in
    let z1 : p.num_allocated ≡ pos 0 = ap (λ (x : Job). x.num_allocated) q ∙ z in
    elim (Bool-cases (p.jobid ==ℤ id)) [
      | inl t ↦ rw t (f p, refl, h p ∙ z1)
      | inr t ↦ rw t (p, refl, z1)
    ]
FreeAt-change_found (p ∷ ps) id f (suc i) h (w, g, z) = elim (Bool-cases (p.jobid ==ℤ id)) [
  | inl t ↦ rw t (w, g, z)
  | inr t ↦ rw t (FreeAt-change_found ps id f i h (w, g, z))
]

-- A server in step, with room for a free job in hand.
abbrev pub Ready : ℕ → Server → Job → Type 0
Ready i s p = Accounted s × FreeAt s.active_jobs i × IsFree p

depend_on_queued-Ready :
    (i : ℕ) (s : Server) (p : Job) (id k : ℤ)
    → Ready i s p
    → Ready i (depend_on_queued s p id k).0 (depend_on_queued s p id k).1
unfolding depend_on_queued add_notify_errorlevel_to
depend_on_queued-Ready i s p id k (a, w, f) = elim (Option-cases (findjob_idx s id)) [
  | inl n ↦ rw (depend_on_queued, n) (a, w, f)
  | inr (j, g) ↦
      let told = add_notify_errorlevel_to p.jobid in
      rw (depend_on_queued, g)
        (
          record {
            total = a.total ∙ sym (sum-change_found held s.active_jobs id told (λ q. refl));
            each = λ u x h.
                a.each u x h ∙ sym (sum-change_found (held_by u) s.active_jobs id told (λ q. refl));
            each_job = All-change_found s.active_jobs id told (λ q h. h) a.each_job;
          },
          FreeAt-change_found s.active_jobs id told i (λ q. refl) w,
          f,
        )
]

depend_on_last-Ready :
    (i : ℕ) (s : Server) (p : Job)
    → Ready i s p
    → Yields (λ (r : Server × Job). Ready i r.0 r.1) (depend_on_last s p)
unfolding depend_on_last
depend_on_last-Ready i s p d =
    let queued_id = find_last_jobid_in_queue s p.jobid in
    let id = if ltb_ℤ queued_id s.last_finished_jobid then negsuc 0 else queued_id in
    let stored = find_last_stored_jobid_finished s in
    elim (Bool-cases (not (id ==ℤ negsuc 0))) [
      | inl t ↦ rw (depend_on_last, t) (depend_on_queued-Ready i s p id (pos 0) d)
      | inr t ↦ elim (Bool-cases (ltb_ℤ s.last_finished_jobid stored)) [
        | inr u ↦ rw (depend_on_last, t, u) d
        | inl u ↦ elim (Option-cases (find_finished_job s stored)) [
          | inl n ↦ rw (depend_on_last, t, u, n) tt
          | inr ((j, q), g) ↦ rw (depend_on_last, t, u, g) d
        ]
      ]
    ]

one-Ready :
    (i : ℕ) (d : ℤ) (s : Server) (p : Job)
    → Ready i s p
    → Yields
        (λ (r : Server × Job). Ready i r.0 r.1)
        (if leb_ℤ p.jobid d
          then ok (s, p)
          else if d ==ℤ negsuc 0
          then depend_on_last s p
          else ok (depend_on_queued s p d (finished_error s d)))
one-Ready i d s p k = elim (Bool-cases (leb_ℤ p.jobid d)) [
  | inl t ↦ rw t k
  | inr t ↦ elim (Bool-cases (d ==ℤ negsuc 0)) [
    | inl u ↦ rw (t, u) (depend_on_last-Ready i s p k)
    | inr u ↦ rw (t, u) (depend_on_queued-Ready i s p d (finished_error s d) k)
  ]
]

pub add_dependencies-Ready :
    (i : ℕ) (ds : List ℤ) (s : Server) (p : Job)
    → Ready i s p
    → Yields (λ (r : Server × Job). Ready i r.0 r.1) (add_dependencies ds s p)
unfolding add_dependencies
add_dependencies-Ready i [] s p k = k
add_dependencies-Ready i (d ∷ ds) s p k =
    Yields-bind (λ (r : Server × Job). Ready i r.0 r.1) (λ (r : Server × Job). Ready i r.0 r.1) _ _
      (one-Ready i d s p k) (λ (r : Server × Job). λ h. add_dependencies-Ready i ds r.0 r.1 h)

pub emit-Accounted : (s : Server) (x : Effect) → Accounted s → Accounted (emit x s)
emit-Accounted s x a = record { total = a.total; each = a.each; each_job = a.each_job }

pub enter_queue-Accounted :
    (i : ℕ) (s : Server) (p : Job) → Ready i s p → Accounted (enter_queue s i p)
unfolding enter_queue
enter_queue-Accounted i s p (a, (w, g, z), f) = elim (Bool-cases (is_wait p.state)) [
  | inl t ↦
      let q : Job = record p { state = queued } in
      rw (enter_queue, t)
        (with_user-Accounted (put_job s i q) p.user add_queued (λ x. refl)
          (free-Accounted s i w q a g z (f.0, refl)))
  | inr t ↦
      let b = free-Accounted s i w p a g z f in
      elim (Bool-cases (is_locked p.state)) [
        | inl u ↦ rw (enter_queue, t, u) b
        | inr u ↦
            rw (enter_queue, t, u)
              (emit-Accounted _ (insert_db p.jobid jobs_table)
                (with_user-Accounted (put_job s i p) p.user add_queued (λ x. refl) b))
      ]
]
