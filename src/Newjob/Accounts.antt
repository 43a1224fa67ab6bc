-- ===== src/Newjob/Accounts.antt =====
-- jobs.c s_newjob after its recount: whatever a client asks for, the counters stay in step.
use task_spooler_plus.Base.{
  ℕ, ℤ, pos, ◌==ℤ◌, ◌≡◌, refl, none, some, true, false, ◌||◌, get_elem?, get_elem?-set_self,
  lt_of_get, All-get, Bool-cases, Option-cases, inl, inr, arith,
}
use task_spooler_plus.State.{
  Job, Server, Env, is_running, is_wait, is_locked, is_delink, send_list_line, set_jobids_db,
}
use task_spooler_plus.Outcome.{Yields, Yields-bind}
use task_spooler_plus.Jobs.{findjob, put_job}
use task_spooler_plus.Jobs.Lookup.{findjob-get}
use task_spooler_plus.Jobs.Balance.{Accounted, IsHeld}
use task_spooler_plus.Jobs.Loops.{Accounted-append}
use task_spooler_plus.Jobs.Alike.{Accounted-remove}
use task_spooler_plus.Finish.Ending.{get-append_last}
use task_spooler_plus.Dependencies.{Request}
use task_spooler_plus.Newjob.{
  newjobptr, find_or_create, with_owner, with_request, with_texts, enter_queue, fill_job,
  asks_too_much, take_place, place_job,
}
use task_spooler_plus.Newjob.Balance.{
  IsFree, Ready, free-Accounted, emit-Accounted, add_dependencies-Ready, enter_queue-Accounted,
}

with_request-IsFree : (e : Env) (m : Request) (p : Job) → IsFree p → IsFree (with_request e m p)
unfolding with_request
with_request-IsFree e m p f = f

with_texts-IsFree : (e : Env) (m : Request) (p : Job) → IsFree p → IsFree (with_texts e m p)
unfolding with_texts
with_texts-IsFree e m p f = f

with_owner-IsFree :
    (sock : ℤ) (m : Request) (u : ℕ) (p : Job) → IsFree p → IsFree (with_owner sock m u p)
unfolding with_owner
with_owner-IsFree sock m u p f = f

fill_job-Accounted :
    (e : Env) (m : Request) (s : Server) (i : ℕ) (p : Job)
    → Ready i s p
    → Yields (λ (r : Server × ℤ). Accounted r.0) (fill_job e m s i p)
unfolding fill_job
fill_job-Accounted e m s i p (a, w, f) =
    Yields-bind (λ (r : Server × Job). Ready i r.0 r.1) (λ (r : Server × ℤ). Accounted r.0) _ _
      (add_dependencies-Ready i m.depend_on s (with_request e m p)
        (a, w, with_request-IsFree e m p f))
      (λ (r : Server × Job). λ k.
        let (b, v, g) = k in
        let t = enter_queue r.0 i (with_texts e m r.1) in
        emit-Accounted t (set_jobids_db t.jobids)
          (enter_queue-Accounted i r.0 (with_texts e m r.1) (b, v, with_texts-IsFree e m r.1 g)))

-- A free job at its place.
abbrev At : ℕ → Server → Job → Type 0
At i s p = Accounted s × (get_elem? s.active_jobs i ≡ some p) × IsFree p

take_place-Accounted :
    (e : Env) (sock : ℤ) (m : Request) (u : ℕ) (t : Server) (i : ℕ) (p : Job)
    → At i t p
    → Yields (λ (r : Server × ℤ). Accounted r.0) (take_place e sock m u t i p)
unfolding take_place
take_place-Accounted e sock m u t i p (a, g, f) =
    let q = with_owner sock m u p in
    let h = with_owner-IsFree sock m u p f in
    elim (Option-cases (get_elem? t.users u)) [
      | inl n ↦ rw (take_place, n) tt
      | inr (x, k) ↦ elim (Bool-cases (asks_too_much x q)) [
        | inl c ↦
            rw (take_place, k, c)
              (emit-Accounted _ (send_list_line sock) (Accounted-remove t i p a g f.0))
        | inr c ↦
            rw (take_place, k, c)
              (fill_job-Accounted e m (put_job t i q) i q (
                free-Accounted t i p q a g f.0 h,
                (q, get_elem?-set_self t.active_jobs i q (lt_of_get t.active_jobs i p g), h.0),
                h,
              ))
      ]
    ]

newjobptr-At :
    (s : Server) (id : ℤ)
    → Accounted s
    → At (newjobptr s id).1 (newjobptr s id).0 (newjobptr s id).2
unfolding newjobptr
newjobptr-At s id a =
    let p = (newjobptr s id).2 in
    let r : is_running p.state ≡ false = ground arith in
    let b = Accounted-append s p a (ground (arith, r)) refl in
    (
      record { total = b.total; each = b.each; each_job = b.each_job },
      get-append_last s.active_jobs p,
      (refl, r),
    )

-- A job that is not running any more or not yet holds no slot.
waiting-IsFree :
    (p : Job)
    → IsHeld p
    → (is_delink p.state || is_wait p.state || is_locked p.state) ≡ true
    → IsFree p
waiting-IsFree p h u = (ground (arith, h, u), ground (arith, u))

place_found :
    (e : Env) (sock : ℤ) (m : Request) (u : ℕ) (s t : Server) (i : ℕ) (p : Job)
    → find_or_create s m.jobid ≡ some (t, i, p)
    → At i t p
    → Yields (λ (r : Server × ℤ). Accounted r.0) (place_job e sock m u s)
unfolding place_job
place_found e sock m u s t i p f a = rw (place_job, f) (take_place-Accounted e sock m u t i p a)

make-new :
    (s : Server) (id : ℤ) → (id ==ℤ pos 0) ≡ true → find_or_create s id ≡ some (newjobptr s id)
unfolding find_or_create
make-new s id t = rw (find_or_create, t) refl

make_given :
    (s : Server) (id : ℤ)
    → (id ==ℤ pos 0) ≡ false
    → findjob s id ≡ none
    → find_or_create s id ≡ some (newjobptr s id)
unfolding find_or_create
make_given s id t n = rw (find_or_create, t, n) refl

-- From balanced counters, any request for a job leaves them balanced, when the server returns from it.
pub place_job-Accounted :
    (e : Env) (sock : ℤ) (m : Request) (u : ℕ) (s : Server)
    → Accounted s
    → Yields (λ (r : Server × ℤ). Accounted r.0) (place_job e sock m u s)
unfolding place_job find_or_create
place_job-Accounted e sock m u s a = elim (Bool-cases (m.jobid ==ℤ pos 0)) [
  | inl t ↦ place_found e sock m u s _ _ _ (make-new s m.jobid t) (newjobptr-At s m.jobid a)
  | inr t ↦ elim (Option-cases (findjob s m.jobid)) [
    | inl n ↦ place_found e sock m u s _ _ _ (make_given s m.jobid t n) (newjobptr-At s m.jobid a)
    | inr ((i, p), f) ↦
        let g = (findjob-get s m.jobid i p f).0 in
        elim (Bool-cases (is_delink p.state || is_wait p.state || is_locked p.state)) [
          | inl w ↦
              place_found e sock m u s s i p (rw (find_or_create, t, f, w) refl)
                (a, g, waiting-IsFree p (All-get IsHeld s.active_jobs i p a.each_job g) w)
          | inr w ↦
              rw (place_job, find_or_create, t, f, w) (emit-Accounted s (send_list_line sock) a)
        ]
  ]
]
