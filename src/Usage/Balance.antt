-- ===== src/Usage/Balance.antt =====
-- jobs.c s_check_timeout, s_check_running_health, s_update_slots_usage: the counters stay in step with
-- the jobs, and a recount brings them back.
use task_spooler_plus.Base.{
  ℕ, zero, suc, pos, ◌≡◌, refl, sym, ◌∙◌, List, [], ◌∷◌, some, ◌&&◌, get_elem?, length, All,
  All-get, All-append, Option-cases, Bool-cases, arith, int_laws, parts, inl, inr, ◌==◌, sum,
}
use task_spooler_plus.State.{Job, Server, Env, pause, abnormal, is_running}
use task_spooler_plus.Jobs.{put_job, free_cores, s_relegate_job}
use task_spooler_plus.Jobs.Balance.{
  Accounted, IsHeld, held, held_by, Moves-trans, Untouched-Moves, Moves-Accounted,
}
use task_spooler_plus.Jobs.Accounting.{
  free_cores-Moves, IsHeld-cases, s_relegate_job-Moves, s_relegate_job-state,
}
use task_spooler_plus.Jobs.Loops.{for_each-keeps, Moves-leaves, Accounted-append}
use task_spooler_plus.Jobs.Alike.{Accounted-Alike}
use task_spooler_plus.Finish.Notices.{free_cores-free}
use task_spooler_plus.Usage.{
  is_timed_out, collect_timed_out, push_back, s_check_timeout, output_is_empty, is_checked_now,
  check_health, s_check_running_health, recount,
}
use task_spooler_plus.Usage.Recount.{recount-Exact, running_slots, running_slots_of}

abnormal-IsHeld : (s : Server) (q : Job) → q.state ≡ abnormal → IsHeld (free_cores s q).1
unfolding free_cores
abnormal-IsHeld s q e = ground (arith, free_cores-free s q)

abnormal-Accounted :
    (s : Server) (i : ℕ) (p : Job)
    → Accounted s
    → get_elem? s.active_jobs i ≡ some p
    → Accounted (
        put_job
          (free_cores s (record p { state = abnormal })).0
          i
          (free_cores s (record p { state = abnormal })).1)
abnormal-Accounted s i p a g =
    let h = IsHeld-cases p (All-get IsHeld s.active_jobs i p a.each_job g) in
    let q : Job = record p { state = abnormal } in
    Moves-Accounted s _ p _ i a g
      (Moves-trans (Untouched-Moves s s p q (refl, refl, refl, refl, refl, refl, refl, refl, refl))
        (free_cores-Moves s q h))
      (abnormal-IsHeld s q refl)

check_health-Accounted :
    (e : Env) (s : Server) (i : ℕ) (p : Job)
    → Accounted s
    → get_elem? s.active_jobs i ≡ some p
    → Accounted (check_health e s i p)
unfolding check_health
check_health-Accounted e s i p a g = elim (Bool-cases (is_checked_now e p)) [
  | inr t ↦ rw t a
  | inl t ↦ elim (Bool-cases (output_is_empty e p && e.child_count p.pid == 0)) [
    | inl z ↦ rw (t, z) (abnormal-Accounted s i p a g)
    | inr z ↦
        rw (t, z)
          (Moves-Accounted s s p (record p { health_state = 1 }) i a g
            (Untouched-Moves s s p _ (refl, refl, refl, refl, refl, refl, refl, refl, refl))
            (All-get IsHeld s.active_jobs i p a.each_job g))
  ]
]

-- Marking jobs as abnormal keeps balanced counters balanced.
pub s_check_running_health-Accounted :
    (e : Env) (s : Server) → Accounted s → Accounted (s_check_running_health e s)
unfolding s_check_running_health
s_check_running_health-Accounted e s a =
    for_each-keeps Accounted (check_health e) (check_health-Accounted e) (length s.active_jobs) 0 s
      a

-- The jobs that a time-out takes off the queue hold no slot.
abbrev pub IsSetAside : Job → Type 0
IsSetAside p = (p.state ≡ pause) × (p.num_allocated ≡ pos 0)

aside : (p : Job) → p.state ≡ pause → IsHeld p → IsSetAside p
aside p s h = (s, ground arith)

aside-IsHeld : (p : Job) → IsSetAside p → IsHeld p
aside-IsHeld p (s, z) = ground arith

collect-Accounted :
    (n : ℕ) (e : Env) (s : Server) (ps : List Job)
    → Accounted s
    → All IsSetAside ps
    → Accounted (collect_timed_out n e s ps).0 × All IsSetAside (collect_timed_out n e s ps).1
unfolding collect_timed_out
collect-Accounted zero e s ps a h = (a, h)
collect-Accounted (suc i) e s ps a h = elim (Option-cases (get_elem? s.active_jobs i)) [
  | inl n ↦ rw (collect_timed_out, n) (collect-Accounted i e s ps a h)
  | inr (p, g) ↦ elim (Bool-cases (is_running p.state && is_timed_out e p)) [
    | inr t ↦ rw (collect_timed_out, g, t) (collect-Accounted i e s ps a h)
    | inl t ↦
        let k = All-get IsHeld s.active_jobs i p a.each_job g in
        let (st, hq) = s_relegate_job-state e s p k in
        let d = aside (s_relegate_job e s p).1 st hq in
        rw (collect_timed_out, g, t)
          (collect-Accounted i e _ _
            (Moves-leaves s _ p _ i a g (s_relegate_job-Moves e s p k) hq d.1)
            (All-append IsSetAside ps _ h (d, tt)))
  ]
]

push_back-Accounted :
    (ps : List Job) (s : Server) → Accounted s → All IsSetAside ps → Accounted (push_back ps s)
unfolding push_back
push_back-Accounted [] s a h = a
push_back-Accounted (p ∷ ps) s a h =
    push_back-Accounted ps _
      (Accounted-Alike _ _ (Accounted-append s p a (aside-IsHeld p h.0) h.0.1) refl refl refl) h.1

-- Taking the jobs that ran too long to the end of the queue keeps balanced counters balanced.
pub s_check_timeout-Accounted :
    (e : Env) (s : Server) → Accounted s → Accounted (s_check_timeout e s).0
unfolding s_check_timeout
s_check_timeout-Accounted e s a =
    let (b, h) = collect-Accounted (length s.active_jobs) e s [] a tt in push_back-Accounted _ _ b h

held_is_running : (p : Job) → IsHeld p → running_slots p ≡ held p
held_is_running p h = sym h

sum-held : (ps : List Job) → All IsHeld ps → sum running_slots ps ≡ sum held ps
unfolding sum
sum-held [] h = refl
sum-held (p ∷ ps) (h, hs) = rw (held_is_running p h, sum-held ps hs) refl

held_for : (u : ℕ) (p : Job) → IsHeld p → running_slots_of u p ≡ held_by u p
held_for u p h = elim (Bool-cases (p.user == u)) [ inl t ↦ rw t (sym h) | inr t ↦ rw t refl ]

sum-held_for :
    (u : ℕ) (ps : List Job) → All IsHeld ps → sum (running_slots_of u) ps ≡ sum (held_by u) ps
unfolding sum
sum-held_for u [] h = refl
sum-held_for u (p ∷ ps) (h, hs) =
    omega (int_laws, parts (held_for u p h), parts (sum-held_for u ps hs))

recount-same : (s : Server) → (recount s).active_jobs ≡ s.active_jobs
unfolding recount
recount-same s = refl

-- When the running jobs and no others hold their slots, the recount balances the counters,
-- whatever they were.
pub recount-Accounted : (s : Server) → All IsHeld s.active_jobs → Accounted (recount s)
recount-Accounted s h =
    let x = recount-Exact s in
    let k : All IsHeld (recount s).active_jobs = rw (recount-same s) h in
    record {
      total = x.slots_exact ∙ sum-held (recount s).active_jobs k;
      each = λ u y g. x.busy_exact u y g ∙ sum-held_for u (recount s).active_jobs k;
      each_job = k;
    }
