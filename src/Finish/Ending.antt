-- ===== src/Finish/Ending.antt =====
-- jobs.c job_finished and new_finished_job: what the end of a job does to the queue, to the slots and
-- to the list of finished jobs.
use task_spooler_plus.Base.{
  ℕ, suc, ℤ, pos, ◌-◌, ◌<◌, ◌+ℤ◌, ◌≤ℤ◌, leb_ℤ, ltb_ℤ, ◌≡◌, refl, ap, ◌∙◌, List, [], ◌∷◌, ◌++◌, map,
  some, false, Bool-cases, get_elem?, get_elem?-set_self, lt_of_get, remove_at, length, All-get,
  length-append, length-remove_at, arith, int_laws, parts, inl, inr, if◌then◌else◌,
}
use task_spooler_plus.State.{Job, Result, Server, Env}
use task_spooler_plus.Outcome.{ok}
use task_spooler_plus.Jobs.{findjob, put_job, free_cores}
use task_spooler_plus.Jobs.Lookup.{findjob-get}
use task_spooler_plus.Jobs.Balance.{
  Accounted, IsHeld, Moves, Moves-trans, Untouched-Moves, Moves-Accounted,
}
use task_spooler_plus.Jobs.Accounting.{free_cores-Moves, IsHeld-cases}
use task_spooler_plus.Jobs.Alike.{
  bare, Alike-get, Accounted-Alike, Accounted-remove, map-remove_at, map-set, remove_at-set,
}
use task_spooler_plus.Finish.{
  notify_errorlevel, get_max_finished_jobs, new_finished_job, with_end, with_result, finish_at,
  job_finished,
}
use task_spooler_plus.Finish.Notices.{notify_errorlevel-Quiet, free_cores-free, ended-IsHeld}

-- The job whose slots are released and whose result is written.
abbrev pub ended : Env → Server → Result → Job → Job
ended e s r p = with_result r (free_cores s p).1

pub ended-Moves :
    (e : Env) (s : Server) (r : Result) (p : Job)
    → IsHeld p
    → Moves s p (free_cores s p).0 (ended e s r p)
unfolding with_result
ended-Moves e s r p h =
    Moves-trans (free_cores-Moves s p (IsHeld-cases p h))
      (Untouched-Moves _ _ _ _ (refl, refl, refl, refl, refl, refl, refl, refl, refl))

-- The server after the notification of the jobs that depend on the ended one.
abbrev pub told : Env → Server → Result → ℕ → Job → Server
told e s r i p =
    notify_errorlevel
      (record (put_job (free_cores s p).0 i (ended e s r p)) {
        last_finished_jobid = (ended e s r p).jobid;
      })
      (ended e s r p)

-- What the end of the job at place `i` promises.
pub record Ended (s : Server) (i : ℕ) (p : Job) (s' : Server) : Type 0 where
  pub accounted : Accounted s'
  pub released : s'.busy_slots +ℤ p.num_allocated ≡ s.busy_slots
  pub others : map bare s'.active_jobs ≡ remove_at (map bare s.active_jobs) i

new_finished_job-rest :
    (e : Env) (s : Server) (j : Job)
    → ((new_finished_job e s j).active_jobs ≡ s.active_jobs)
      × ((new_finished_job e s j).users ≡ s.users)
      × ((new_finished_job e s j).busy_slots ≡ s.busy_slots)
unfolding new_finished_job
new_finished_job-rest e s j = ground arith

pub finish_at-found :
    (e : Env) (s : Server) (r : Result) (i : ℕ) (p p3 : Job)
    → get_elem? (told e s r i p).active_jobs i ≡ some p3
    → finish_at e s r i p
      ≡ ok (
          new_finished_job e
            (record (told e s r i p) { active_jobs = remove_at (told e s r i p).active_jobs i })
            (with_end e r p3))
unfolding finish_at
finish_at-found e s r i p p3 g = rw (finish_at, g) refl

pub finish_at-Ended :
    (e : Env) (s : Server) (r : Result) (i : ℕ) (p : Job)
    → Accounted s
    → IsHeld p
    → get_elem? s.active_jobs i ≡ some p
    → (s' : Server) × (finish_at e s r i p ≡ ok s') × Ended s i p s'
finish_at-Ended e s r i p a h g =
    let m = ended-Moves e s r p h in
    let z : (ended e s r p).num_allocated ≡ pos 0 = (unfold with_result in free_cores-free s p) in
    let put = put_job (free_cores s p).0 i (ended e s r p) in
    let a1 : Accounted put =
      Moves-Accounted s _ p (ended e s r p) i a g m (ended-IsHeld r _ (free_cores-free s p)) in
    let q =
      notify_errorlevel-Quiet (record put { last_finished_jobid = (ended e s r p).jobid })
        (ended e s r p) in
    let g1 : get_elem? put.active_jobs i ≡ some (ended e s r p) =
      rw m.same_active (get_elem?-set_self s.active_jobs i _ (lt_of_get s.active_jobs i p g)) in
    let (p3, g3, b3) =
      Alike-get put.active_jobs (told e s r i p).active_jobs i (ended e s r p) q.alike g1 in
    let a2 : Accounted (told e s r i p) =
      Accounted-Alike put _ a1 q.same_busy q.same_users q.alike in
    let a3 =
      Accounted-remove (told e s r i p) i p3 a2 g3 (ap (λ (v : Job). v.num_allocated) b3 ∙ z) in
    let gone : Server = record (told e s r i p) {
      active_jobs = remove_at (told e s r i p).active_jobs i;
    } in
    let rest = new_finished_job-rest e gone (with_end e r p3) in
    (
      new_finished_job e gone (with_end e r p3),
      finish_at-found e s r i p p3 g3,
      record {
        accounted = Accounted-Alike gone _ a3 rest.2 rest.1 (ap (map bare) rest.0);
        released = omega (int_laws, parts rest.2, parts q.same_busy, parts m.moved, parts z);
        others =
            ap (map bare) rest.0
            ∙ map-remove_at (told e s r i p).active_jobs i
            ∙ ap (λ l. remove_at l i)
                (q.alike ∙ map-set (free_cores s p).0.active_jobs i (ended e s r p))
            ∙ remove_at-set (map bare (free_cores s p).0.active_jobs) i (bare (ended e s r p))
            ∙ ap (λ (l : List Job). remove_at (map bare l) i) m.same_active;
      },
    )

-- The end of a job that is in the queue, with counters that are balanced and not negative, never
-- fails: the job leaves the queue, the others stay as they were but for the errors of what they
-- depend on, its slots are released, and the counters stay balanced.
pub job_finished-Ended :
    (e : Env) (s : Server) (r : Result) (id : ℤ) (i : ℕ) (p : Job)
    → Accounted s
    → pos 0 ≤ℤ s.busy_slots
    → findjob s id ≡ some (i, p)
    → (s' : Server) × (job_finished e s r id ≡ ok s') × Ended s i p s'
unfolding job_finished
job_finished-Ended e s r id i p a n f =
    let (g, _) = findjob-get s id i p f in
    let (s', h, d) =
      finish_at-Ended e s r i p a (All-get IsHeld s.active_jobs i p a.each_job g) g in
    let c : ltb_ℤ s.busy_slots (pos 0) ≡ false = ground arith in (s', rw (c, f) h, d)

max_finished_pos : (e : Env) → pos 1 ≤ℤ get_max_finished_jobs e
unfolding get_max_finished_jobs
max_finished_pos e = ground arith

abbrev pub room : Env → Server → List Job
room e s =
    if leb_ℤ (get_max_finished_jobs e) (pos (length s.finished_jobs))
    then remove_at s.finished_jobs 0
    else s.finished_jobs

pub finished_list :
    (e : Env) (s : Server) (j : Job) → (new_finished_job e s j).finished_jobs ≡ room e s ++ j ∷ []
unfolding new_finished_job
finished_list e s j = elim (Bool-cases (e.insert_succeeds j.jobid)) [
  | inl t ↦ rw t refl
  | inr t ↦ rw t refl
]

pub get-append_last : (ps : List Job) (j : Job) → get_elem? (ps ++ j ∷ []) (length ps) ≡ some j
get-append_last [] j = refl
get-append_last (p ∷ ps) j = get-append_last ps j

length-room :
    (e : Env) (s : Server)
    → pos (length s.finished_jobs) ≤ℤ get_max_finished_jobs e
    → pos (suc (length (room e s))) ≤ℤ get_max_finished_jobs e
length-room e s h =
    elim (Bool-cases (leb_ℤ (get_max_finished_jobs e) (pos (length s.finished_jobs)))) [
      | inl t ↦
          let k : 0 < length s.finished_jobs = ground (arith, max_finished_pos e) in
          rw t (omega (arith, h, length-remove_at s.finished_jobs 0 k))
      | inr t ↦ rw t (ground arith)
    ]

-- The list of finished jobs, when it is within the number that the environment allows, stays
-- within it, and the job that ended last is at its end.
pub new_finished_job-bound :
    (e : Env) (s : Server) (j : Job)
    → pos (length s.finished_jobs) ≤ℤ get_max_finished_jobs e
    → (pos (length (new_finished_job e s j).finished_jobs) ≤ℤ get_max_finished_jobs e)
      × (get_elem?
            (new_finished_job e s j).finished_jobs
            (length (new_finished_job e s j).finished_jobs - 1)
          ≡ some j)
new_finished_job-bound e s j h =
    let n : length (room e s ++ j ∷ []) ≡ suc (length (room e s)) =
      omega (arith, length-append (room e s) (j ∷ [])) in
    let m : length (room e s ++ j ∷ []) - 1 ≡ length (room e s) = omega (arith, n) in
    rw (finished_list e s j) (rw n (length-room e s h), rw m (get-append_last (room e s) j))
