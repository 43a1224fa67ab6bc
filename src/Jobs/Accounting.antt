-- ===== src/Jobs/Accounting.antt =====
-- jobs.c free_cores, config_running, safe_pause_job, s_relegate_job: what they do to the slots that
-- the jobs hold, and to the counters of the users.
use task_spooler_plus.Base.{
  ℕ, pos, ◌+ℤ◌, ◌-ℤ◌, ◌≡◌, refl, ◌⊎◌, inl, inr, none, some, false, if◌then◌else◌, ◌==◌, arith,
  int_laws, parts, Bool-cases, ◌==ℤ◌, ==ℤ_iff,
}
use task_spooler_plus.State.{Job, User, Server, Env, is_running, running, pause, queued}
use task_spooler_plus.Jobs.{
  release_user, occupy_user, occupy, thaw_sleeper, rerun_job_config, pause_job_config,
  config_running, safe_pause_job, s_relegate_job, free_cores,
}
use task_spooler_plus.Jobs.Balance.{
  IsHeld, Moves, Moves-refl, Moves-trans, Untouched-Moves, change_user-get, length-change_user,
  held_by,
}

holds :
    (s : Server) (p : Job)
    → (p.num_allocated ≡ pos 0) ⊎ (p.num_allocated ≡ p.num_slots)
    → (p.num_allocated ==ℤ pos 0) ≡ false
    → p.num_allocated ≡ p.num_slots
holds s p (inl z) e = absurd (ground (arith, (==ℤ_iff p.num_allocated (pos 0)).1 z))
holds s p (inr h) e = h

released :
    (s : Server) (p : Job) (y x : User) (u : ℕ)
    → p.num_allocated ≡ p.num_slots
    → x ≡ (if p.user == u then release_user p.num_slots y else y)
    → x.busy +ℤ held_by u p ≡ y.busy +ℤ (if p.user == u then pos 0 else pos 0)
released s p y x u n f = elim (Bool-cases (p.user == u)) [
  | inl e ↦
      let b : x.busy ≡ y.busy -ℤ p.num_slots = ground arith in
      rw e (omega (int_laws, parts b, parts n))
  | inr e ↦ let b : x.busy ≡ y.busy = ground arith in rw e (rw b)
]

occupied :
    (p : Job) (y x : User) (u : ℕ)
    → p.num_allocated ≡ pos 0
    → x ≡ (if p.user == u then occupy_user p.num_slots y else y)
    → x.busy +ℤ held_by u p ≡ y.busy +ℤ (if p.user == u then p.num_slots else pos 0)
occupied p y x u n f = elim (Bool-cases (p.user == u)) [
  | inl e ↦
      let b : x.busy ≡ y.busy +ℤ p.num_slots = ground arith in
      rw e (omega (int_laws, parts b, parts n))
  | inr e ↦ let b : x.busy ≡ y.busy = ground arith in rw e (rw b)
]

pub free_cores-Moves :
    (s : Server) (p : Job)
    → (p.num_allocated ≡ pos 0) ⊎ (p.num_allocated ≡ p.num_slots)
    → Moves s p (free_cores s p).0 (free_cores s p).1
unfolding free_cores
free_cores-Moves s p h = elim (Bool-cases (p.num_allocated ==ℤ pos 0)) [
  | inl e ↦ rw e (Moves-refl s p)
  | inr e ↦ rw e (record {
    same_active = refl;
    same_user = refl;
    same_id = refl;
    same_slots = refl;
    same_limit = refl;
    same_turn = refl;
    same_count = length-change_user s.users p.user (release_user p.num_slots);
    moved = omega (int_laws, parts (holds s p h e));
    moved_for = λ u x h'.
        let (y, g, f) = change_user-get s.users p.user u (release_user p.num_slots) x h' in
        (y, g, ground arith, released s p y x u (holds s p h e) f);
  })
]

occupy-Moves :
    (s : Server) (p : Job) → p.num_allocated ≡ pos 0 → Moves s p (occupy s p).0 (occupy s p).1
unfolding occupy
occupy-Moves s p n = record {
  same_active = refl;
  same_user = refl;
  same_id = refl;
  same_slots = refl;
  same_limit = refl;
  same_turn = refl;
  same_count = length-change_user s.users p.user (occupy_user p.num_slots);
  moved = omega (int_laws, parts n);
  moved_for = λ u x h'.
      let (y, g, f) = change_user-get s.users p.user u (occupy_user p.num_slots) x h' in
      (y, g, ground arith, occupied p y x u n f);
}

pause_job_config-Moves :
    (e : Env) (s : Server) (p : Job)
    → Moves s p (pause_job_config e s p).0 (pause_job_config e s p).1
unfolding pause_job_config
pause_job_config-Moves e s p = Untouched-Moves _ _ _ _ (ground arith)

rerun_job_config-Moves :
    (e : Env) (s : Server) (p : Job)
    → Moves s p (rerun_job_config e s p).0 (rerun_job_config e s p).1
unfolding rerun_job_config
rerun_job_config-Moves e s p = Untouched-Moves _ _ _ _ (ground arith)

thaw-Moves : (e : Env) (s : Server) (p : Job) → Moves s p (thaw_sleeper e s p) p
unfolding thaw_sleeper
thaw-Moves e s p = Untouched-Moves _ _ _ _ (ground arith)

pub started : Env → Server → Job → Server × Job
started e s p = let t = occupy (thaw_sleeper e s p) p in rerun_job_config e t.0 t.1

pub started-Moves :
    (e : Env) (s : Server) (p : Job)
    → p.num_allocated ≡ pos 0
    → Moves s p (started e s p).0 (started e s p).1
unfolding started
started-Moves e s p n =
    Moves-trans (thaw-Moves e s p)
      (Moves-trans (occupy-Moves (thaw_sleeper e s p) p n) (rerun_job_config-Moves e _ _))

pub started-state :
    (e : Env) (s : Server) (p : Job)
    → ((started e s p).1.state ≡ running)
      × ((started e s p).1.num_allocated ≡ (started e s p).1.num_slots)
unfolding started rerun_job_config occupy
started-state e s p = ground arith

config_running-cases :
    (e : Env) (s : Server) (p : Job)
    → (config_running e s p ≡ none) ⊎ (config_running e s p ≡ some (started e s p))
unfolding config_running started
config_running-cases e s p = ground arith

pub config_running-ready :
    (e : Env) (s : Server) (p : Job)
    → (p.state ≡ queued) ⊎ (p.state ≡ pause)
    → config_running e s p ≡ some (started e s p)
unfolding config_running started
config_running-ready e s p h = ground arith

-- A job that starts or resumes takes its slots, from the global count and from its user's.
pub config_running-Moves :
    (e : Env) (s s' : Server) (p p' : Job)
    → p.num_allocated ≡ pos 0
    → config_running e s p ≡ some (s', p')
    → Moves s p s' p' × (p'.state ≡ running) × (p'.num_allocated ≡ p'.num_slots)
config_running-Moves e s s' p p' n h = elim (config_running-cases e s p) [
  | inl z ↦ absurd (ground arith)
  | inr z ↦
      let a : (started e s p).0 ≡ s' = ground arith in
      let b : (started e s p).1 ≡ p' = ground arith in
      rw (← a, ← b) (started-Moves e s p n, (started-state e s p).0, (started-state e s p).1)
]

pub IsHeld-cases :
    (p : Job) → IsHeld p → (p.num_allocated ≡ pos 0) ⊎ (p.num_allocated ≡ p.num_slots)
IsHeld-cases p h = ground arith

pub safe_pause_job-Moves :
    (e : Env) (s : Server) (p : Job)
    → IsHeld p
    → Moves s p (safe_pause_job e s p).0 (safe_pause_job e s p).1
unfolding safe_pause_job
safe_pause_job-Moves e s p h =
    Moves-trans (Untouched-Moves s _ p p (refl, refl, refl, refl, refl, refl, refl, refl, refl))
      (Moves-trans (free_cores-Moves _ p (IsHeld-cases p h)) (pause_job_config-Moves e _ _))

pub safe_pause_job-free :
    (e : Env) (s : Server) (p : Job) → (safe_pause_job e s p).1.num_allocated ≡ pos 0
unfolding safe_pause_job pause_job_config free_cores
safe_pause_job-free e s p = ground (arith, ==ℤ_iff p.num_allocated (pos 0))

pub s_relegate_job-Moves :
    (e : Env) (s : Server) (p : Job)
    → IsHeld p
    → Moves s p (s_relegate_job e s p).0 (s_relegate_job e s p).1
unfolding s_relegate_job
s_relegate_job-Moves e s p h = elim (Bool-cases (is_running p.state)) [
  | inl r ↦
      rw r (Moves-trans (safe_pause_job-Moves e s p h) (Untouched-Moves _ _ _ _ (ground arith)))
  | inr r ↦ rw r (Untouched-Moves _ _ _ _ (ground arith))
]

pub s_relegate_job-state :
    (e : Env) (s : Server) (p : Job)
    → IsHeld p
    → ((s_relegate_job e s p).1.state ≡ pause) × IsHeld (s_relegate_job e s p).1
unfolding s_relegate_job
s_relegate_job-state e s p h = ground (arith, safe_pause_job-free e s p)
