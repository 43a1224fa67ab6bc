-- ===== src/Scheduler/Wake.antt =====
-- jobs.c wake_all_held_clients: every client that waits for room is woken.
use task_spooler_plus.Base.{
  ℕ, zero, suc, ℤ, pos, ◌+◌, ◌≤◌, ◌≡◌, refl, inl, inr, List, [], ◌∷◌, none, some, Bool-cases,
  Option-cases, get_elem?, set, length, All-get, arith, if◌then◌else◌,
}
use task_spooler_plus.State.{Job, Server, queued, is_holding_client, holding_client}
use task_spooler_plus.Jobs.{put_job}
use task_spooler_plus.Jobs.Balance.{Untouched-Moves, IsHeld}
use task_spooler_plus.Scheduler.{
  find_holding, wake_hold_client, newjob_ok_to, wake_loop, wake_all_held_clients,
}
use task_spooler_plus.Scheduler.Sound.{
  IsSound, Grows, Grows-refl, Grows-trans, Grows-ext, IsSound-ext, work, work-set, weight,
}
use task_spooler_plus.Scheduler.Limits.{Moves-IsSound}

find_holding-get :
    (ps : List Job) (i : ℕ) (p : Job)
    → find_holding ps ≡ some (i, p)
    → (get_elem? ps i ≡ some p) × (p.state ≡ holding_client)
unfolding find_holding
find_holding-get [] i p h = cc
find_holding-get (q ∷ ps) i p h = elim (Bool-cases (is_holding_client q.state)) [
  | inl t ↦ ground arith
  | inr t ↦ elim (Option-cases (find_holding ps)) [
    | inl n ↦ absurd (ground arith)
    | inr (r, f) ↦ ground (arith, find_holding-get ps r.0 r.1 f)
  ]
]

-- The jobs whose clients wait.
waiting : List Job → ℕ
waiting [] = 0
waiting (p ∷ ps) = (if is_holding_client p.state then 1 else 0) + waiting ps

waiting-le : (ps : List Job) → waiting ps ≤ length ps
unfolding waiting
waiting-le [] = omega arith
waiting-le (p ∷ ps) = ground (arith, waiting-le ps)

waiting-set :
    (ps : List Job) (i : ℕ) (p : Job)
    → get_elem? ps i ≡ some p
    → p.state ≡ holding_client
    → waiting (set ps i (record p { state = queued })) + 1 ≡ waiting ps
unfolding waiting
waiting-set [] i p g h = cc
waiting-set (q ∷ ps) zero p g h = let e : q.state ≡ holding_client = cc in rw e (omega arith)
waiting-set (q ∷ ps) (suc i) p g h = omega (arith, waiting-set ps i p g h)

waiting-none : (ps : List Job) → waiting ps ≡ 0 → find_holding ps ≡ none
unfolding waiting find_holding
waiting-none [] h = refl
waiting-none (p ∷ ps) h = ground (arith, waiting-none ps)

woken_work : (a b : ℕ) (p : Job) → p.state ≡ holding_client → a + weight p.state ≡ b + 2 → a ≤ b
woken_work a b p h e = let e' : a + 3 ≡ b + 2 = rw h at e in omega arith

abbrev woken : Server → ℕ → Job → Server
woken s i p = newjob_ok_to (put_job s i (record p { state = queued })) p.jobid

wake-none : (s : Server) → find_holding s.active_jobs ≡ none → wake_hold_client s ≡ none
unfolding wake_hold_client
wake-none s h = rw h

wake-some :
    (s : Server) (i : ℕ) (p : Job)
    → find_holding s.active_jobs ≡ some (i, p)
    → wake_hold_client s ≡ some (put_job s i (record p { state = queued }), p.jobid)
unfolding wake_hold_client
wake-some s i p h = rw h

wake_loop-none : (fuel : ℕ) (s : Server) → find_holding s.active_jobs ≡ none → wake_loop fuel s ≡ s
unfolding wake_loop
wake_loop-none zero s h = refl
wake_loop-none (suc fuel) s h = rw (wake-none s h, wake_loop)

wake_loop-some :
    (fuel : ℕ) (s : Server) (i : ℕ) (p : Job)
    → find_holding s.active_jobs ≡ some (i, p)
    → wake_loop (suc fuel) s ≡ wake_loop fuel (woken s i p)
unfolding wake_loop
wake_loop-some fuel s i p h = rw (wake-some s i p h, wake_loop)

newjob_ok_to-same :
    (s : Server) (id : ℤ)
    → ((newjob_ok_to s id).active_jobs ≡ s.active_jobs)
      × ((newjob_ok_to s id).users ≡ s.users)
      × ((newjob_ok_to s id).busy_slots ≡ s.busy_slots)
      × ((newjob_ok_to s id).max_slots ≡ s.max_slots)
      × ((newjob_ok_to s id).last_uid ≡ s.last_uid)
unfolding newjob_ok_to
newjob_ok_to-same s id = ground arith

held_of_waiting : (p : Job) → IsHeld p → p.state ≡ holding_client → p.num_allocated ≡ pos 0
held_of_waiting p h e = ground arith

-- What the loop keeps of a server.
record Woken (s s' : Server) : Type 0 where
  sound : IsSound s'
  grows : Grows s s'
  no_more : work s'.active_jobs ≤ work s.active_jobs
  fewer : waiting s'.active_jobs ≤ waiting s.active_jobs

woken-Woken :
    (s : Server) (i : ℕ) (p : Job)
    → IsSound s
    → get_elem? s.active_jobs i ≡ some p
    → p.state ≡ holding_client
    → Woken s (woken s i p) × (waiting (woken s i p).active_jobs + 1 ≡ waiting s.active_jobs)
woken-Woken s i p d g h =
    let q : Job = record p { state = queued } in
    let hp : IsHeld p = All-get IsHeld s.active_jobs i p d.accounted.each_job g in
    let sound =
      Moves-IsSound s s p q i d g
        (Untouched-Moves s s p q (refl, refl, refl, refl, refl, refl, refl, refl, refl))
        (held_of_waiting p hp h) in
    let (a, us, b, m, l) = newjob_ok_to-same (put_job s i q) p.jobid in
    let wt = work-set s.active_jobs i p q g in
    let wn = waiting-set s.active_jobs i p g h in
    (
      record {
        sound = IsSound-ext (put_job s i q) (woken s i p) a us b (rw (l, us) d.turn) sound;
        grows = Grows-ext s s (woken s i p) us b m (Grows-refl s);
        no_more = rw a (woken_work (work (set s.active_jobs i q)) _ p h wt);
        fewer = rw a (omega (arith, wn));
      },
      rw a wn,
    )

Woken-refl : (s : Server) → IsSound s → Woken s s
Woken-refl s d = record {
  sound = d;
  grows = Grows-refl s;
  no_more = omega arith;
  fewer = omega arith;
}

Woken-trans : {s t r : Server} → Woken s t → Woken t r → Woken s r
Woken-trans a b = record {
  sound = b.sound;
  grows = Grows-trans a.grows b.grows;
  no_more = omega (arith, a.no_more, b.no_more);
  fewer = omega (arith, a.fewer, b.fewer);
}

wake_loop-Woken :
    (fuel : ℕ) (s : Server)
    → IsSound s
    → waiting s.active_jobs ≤ fuel
    → Woken s (wake_loop fuel s) × (find_holding (wake_loop fuel s).active_jobs ≡ none)
wake_loop-Woken zero s d h =
    let n = waiting-none s.active_jobs (omega arith) in
    rw (wake_loop-none zero s n) (Woken-refl s d, n)
wake_loop-Woken (suc fuel) s d h = elim (Option-cases (find_holding s.active_jobs)) [
  | inl n ↦ rw (wake_loop-none (suc fuel) s n) (Woken-refl s d, n)
  | inr ((i, p), f) ↦
      let (g, st) = find_holding-get s.active_jobs i p f in
      let (w, k) = woken-Woken s i p d g st in
      let (w', n) = wake_loop-Woken fuel (woken s i p) w.sound (omega (arith, k)) in
      rw (wake_loop-some fuel s i p f) (Woken-trans w w', n)
]

-- Waking keeps a server sound and its counters, makes no new work, and leaves no client waiting.
pub wake_all_held_clients_lem :
    (s : Server)
    → IsSound s
    → IsSound (wake_all_held_clients s)
      × Grows s (wake_all_held_clients s)
      × (work (wake_all_held_clients s).active_jobs ≤ work s.active_jobs)
      × (find_holding (wake_all_held_clients s).active_jobs ≡ none)
unfolding wake_all_held_clients
wake_all_held_clients_lem s d =
    let (w, n) = wake_loop-Woken (length s.active_jobs) s d (waiting-le s.active_jobs) in
    (w.sound, w.grows, w.no_more, n)
