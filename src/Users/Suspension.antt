-- ===== src/Users/Suspension.antt =====
-- server_user.c s_suspend_user: its loop leaves no job of the user running; and s_lock_queue,
-- s_unlock_queue, which undo each other.
use task_spooler_plus.Base.{
  ℕ, zero, suc, ℤ, pos, negsuc, ◌+◌, ◌+ℤ◌, ◌<◌, ◌≡◌, ◌≢◌, refl, ap, sym, ◌∙◌, subst, List, [], ◌∷◌,
  none, some, true, false, ◌&&◌, not, get_elem?, get_elem?-set_self, get_elem?-set_ne, lt_of_get,
  length, length-set, set, All, Option-cases, Bool-cases, arith, int_laws, inl, inr, ◌==◌, ◌==ℤ◌,
}
use task_spooler_plus.State.{
  Job, User, Server, Env, pause, Jobstate, queued, locked, is_running, is_queued,
}
use task_spooler_plus.Jobs.{
  for_each, with_user, change_user, safe_pause_job, free_cores, pause_job_config,
}
use task_spooler_plus.Users.{suspend_one, lock_user, s_lock_queue, s_unlock_queue, add_queue}

set-same : (ps : List Job) (i : ℕ) (p : Job) → get_elem? ps i ≡ some p → set ps i p ≡ ps
set-same [] i p g = refl
set-same (q ∷ ps) zero p g = let e : q ≡ p = ground arith in ap (λ (v : Job). v ∷ ps) (sym e)
set-same (q ∷ ps) (suc i) p g = ap (λ l. q ∷ l) (set-same ps i p g)

All-of_get :
    (P : Job → Type 0) (ps : List Job)
    → ((i : ℕ) (p : Job) → get_elem? ps i ≡ some p → P p)
    → All P ps
All-of_get P [] h = tt
All-of_get P (p ∷ ps) h = (h 0 p refl, All-of_get P ps (λ i. h (suc i)))

-- A turn of a loop that writes the job of its own place, and leaves it right.
abbrev pub WritesOwn : (Job → Type 0) → (Server → ℕ → Job → Server) → Type 0
WritesOwn P f =
    (s : Server) (i : ℕ) (p : Job)
    → get_elem? s.active_jobs i ≡ some p
    → (q : Job) × ((f s i p).active_jobs ≡ set s.active_jobs i q) × P q

-- The places that the loop has passed.
abbrev Below : (Job → Type 0) → ℕ → Server → Type 0
Below P i s = (j : ℕ) (p : Job) → j < i → get_elem? s.active_jobs j ≡ some p → P p

Below-suc :
    (P : Job → Type 0) (s t : Server) (i : ℕ) (p q : Job)
    → get_elem? s.active_jobs i ≡ some p
    → t.active_jobs ≡ set s.active_jobs i q
    → P q
    → Below P i s
    → Below P (suc i) t
Below-suc P s t i p q g e k b j r l h = elim (Bool-cases (i == j)) [
  | inl c ↦
      let ij : i ≡ j = ground arith in
      let a : get_elem? (set s.active_jobs i q) j ≡ some q =
        subst (λ m. get_elem? (set s.active_jobs i q) m ≡ some q) ij
          (get_elem?-set_self s.active_jobs i q (lt_of_get s.active_jobs i p g)) in
      let d : get_elem? (set s.active_jobs i q) j ≡ some r = (rw e at h) in
      let qr : q ≡ r = ground arith in subst P qr k
  | inr c ↦
      let d : get_elem? (set s.active_jobs i q) j ≡ some r = (rw e at h) in
      let ne : i ≢ j = (λ w. ground arith) in
      b j r (ground arith) (sym (get_elem?-set_ne s.active_jobs q ne) ∙ d)
]

pub loop-All :
    (P : Job → Type 0) (f : Server → ℕ → Job → Server)
    → WritesOwn P f
    → (n i : ℕ) (s : Server) → n + i ≡ length s.active_jobs
    → Below P i s
    → All P (for_each n i f s).active_jobs
unfolding for_each
loop-All P f w zero i s e b =
    All-of_get P s.active_jobs
      (λ j. λ p. λ g. b j p (omega (arith, e, lt_of_get s.active_jobs j p g)) g)
loop-All P f w (suc n) i s e b = elim (Option-cases (get_elem? s.active_jobs i)) [
  | inl z ↦ rw (for_each, z) (loop-All P f w n (suc i) s (omega (arith, e)) (Below-none s i z b))
  | inr (p, g) ↦
      let (q, a, k) = w s i p g in
      rw (for_each, g)
        (loop-All P f w n (suc i) (f s i p)
          (omega (arith, e, ap length a, length-set s.active_jobs i q))
          (Below-suc P s (f s i p) i p q g a k b))
]
  where
    Below-none :
        (s : Server) (i : ℕ) → get_elem? s.active_jobs i ≡ none → Below P i s → Below P (suc i) s
    Below-none s i z b j r l h = elim (Bool-cases (i == j)) [
      | inl c ↦
          let ij : i ≡ j = ground arith in
          let k : get_elem? s.active_jobs i ≡ some r = ap (get_elem? s.active_jobs) ij ∙ h in
          absurd (ground arith)
      | inr c ↦ b j r (ground arith) h
    ]

-- Not a running job of a user, with a process.
abbrev pub IsStill : ℕ → Job → Type 0
IsStill u p = (p.user == u && is_running p.state && not (p.pid ==ℤ pos 0)) ≡ false

paused-IsStill : (u : ℕ) (q : Job) → IsStill u (record q { state = pause })
paused-IsStill u q = elim (Bool-cases (q.user == u)) [ inl t ↦ rw t refl | inr t ↦ rw t refl ]

safe_pause_job-active :
    (e : Env) (s : Server) (p : Job) → (safe_pause_job e s p).0.active_jobs ≡ s.active_jobs
unfolding safe_pause_job free_cores pause_job_config
safe_pause_job-active e s p = ground arith

suspend_one-WritesOwn : (e : Env) (sock : ℤ) (u : ℕ) → WritesOwn (IsStill u) (suspend_one e sock u)
unfolding suspend_one
suspend_one-WritesOwn e sock u s i p g = elim (Bool-cases (p.user == u && is_running p.state)) [
  | inr t ↦ (p, rw t (sym (set-same s.active_jobs i p g)), ground arith)
  | inl t ↦ elim (Bool-cases (p.pid ==ℤ pos 0)) [
    | inl z ↦ (p, rw (t, z) (sym (set-same s.active_jobs i p g)), ground arith)
    | inr z ↦
        let q : Job = record (safe_pause_job e s p).1 { state = pause } in
        (
          q,
          rw (t, z) (ap (λ (l : List Job). set l i q) (safe_pause_job-active e s p)),
          paused-IsStill u q,
        )
  ]
]

-- The loop of s_suspend_user leaves no job of the user running that has a process.
pub suspended-IsStill :
    (e : Env) (s : Server) (sock : ℤ) (u : ℕ)
    → All
        (IsStill u)
        (for_each
          (length s.active_jobs)
          0
          (suspend_one e sock u)
          (with_user s u lock_user)).active_jobs
suspended-IsStill e s sock u =
    loop-All (IsStill u) (suspend_one e sock u) (suspend_one-WritesOwn e sock u)
      (length s.active_jobs) 0 (with_user s u lock_user) (omega arith)
      (λ j. λ p. λ l. λ g. absurd (omega (arith, l)))

set-set : (ps : List Job) (i : ℕ) (p q : Job) → set (set ps i q) i p ≡ set ps i p
set-set [] i p q = refl
set-set (r ∷ ps) zero p q = refl
set-set (r ∷ ps) (suc i) p q = ap (λ l. r ∷ l) (set-set ps i p q)

queue-back :
    (us : List User) (k : ℕ)
    → change_user (change_user us k (add_queue (negsuc 0))) k (add_queue (pos 1)) ≡ us
queue-back [] k = refl
queue-back (x ∷ us) zero =
    let e : x.queue +ℤ negsuc 0 +ℤ pos 1 ≡ x.queue = omega int_laws in
    ap (λ (z : ℤ). record x { queue = z } ∷ us) e
queue-back (x ∷ us) (suc k) = ap (λ l. x ∷ l) (queue-back us k)

lock-eq :
    (s : Server) (i : ℕ) (p : Job)
    → is_queued p.state ≡ true
    → ((s_lock_queue s i p).active_jobs ≡ set s.active_jobs i (record p { state = locked }))
      × ((s_lock_queue s i p).users ≡ change_user s.users p.user (add_queue (negsuc 0)))
unfolding s_lock_queue
lock-eq s i p c = rw c (refl, refl)

-- For a queued job, s_unlock_queue after s_lock_queue gives the jobs and the users back as they
-- were.
pub s_unlock_queue-s_lock_queue :
    (s : Server) (i : ℕ) (p : Job)
    → get_elem? s.active_jobs i ≡ some p
    → p.state ≡ queued
    → ((s_unlock_queue (s_lock_queue s i p) i (record p { state = locked })).active_jobs
        ≡ s.active_jobs)
      × ((s_unlock_queue (s_lock_queue s i p) i (record p { state = locked })).users ≡ s.users)
unfolding s_unlock_queue
s_unlock_queue-s_lock_queue s i p g q =
    let (a, b) = lock-eq s i p (ap is_queued q) in
    let same : record p { state = queued } ≡ p =
      ap (λ (t : Jobstate). record p { state = t }) (sym q) in
    (
      ap (λ (l : List Job). set l i (record p { state = queued })) a
          ∙ set-set s.active_jobs i (record p { state = queued }) (record p { state = locked })
          ∙ ap (set s.active_jobs i) same
          ∙ set-same s.active_jobs i p g,
      ap (λ l. change_user l p.user (add_queue (pos 1))) b ∙ queue-back s.users p.user,
    )
