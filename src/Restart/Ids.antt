-- ===== src/Restart/Ids.antt =====
-- jobs.c s_read_sqlite: the ids of the jobs that come back from the database.
use task_spooler_plus.Base.{
  ℤ, pos, ltb_ℤ, ◌≡◌, ◌≢◌, refl, sym, List, [], ◌∷◌, ◌++◌, Option, none, some, ◌&&◌, ◌||◌,
  Bool-cases, inl, inr, All, All-append,
}
use task_spooler_plus.State.{Job, Server, Env, is_running, is_queued, is_locked, is_pause}
use task_spooler_plus.Jobs.{with_user}
use task_spooler_plus.Newjob.Ids.{IsFresh, SameIds-IsFresh}
use task_spooler_plus.Newjob.Fresh.{joined-IsFresh, next_above}
use task_spooler_plus.Restart.{
  restore, as_paused, is_alive, add_queued, s_add_job, add_jobs, add_finished, s_read_sqlite,
}

-- The id of a row differs from that of a job.
abbrev Differs : ℤ → Option Job → Type 0
Differs id none = Unit {0}
Differs id (some k) = k.jobid ≢ id

-- The ids of the rows are distinct, as the jobid is the primary key of the table.
abbrev pub Unique : List (Option Job) → Type 0
Unique [] = Unit {0}
Unique (none ∷ rows) = Unique rows
Unique (some j ∷ rows) = All (Differs j.jobid) rows × Unique rows

-- No row has the id of an active job.
abbrev Absent : List Job → Option Job → Type 0
Absent ps none = Unit {0}
Absent ps (some k) = All (λ p. p.jobid ≢ k.jobid) ps

-- The active jobs that may be there after a row was added.
abbrev Grown : Server → ℤ → Server → Type 0
Grown s id t =
    IsFresh t
    × ((rows : List (Option Job))
        → All (Absent s.active_jobs) rows
        → All (Differs id) rows
        → All (Absent t.active_jobs) rows)

Absent-after :
    (ps : List Job) (p : Job) (rows : List (Option Job))
    → All (Absent ps) rows
    → All (Differs p.jobid) rows
    → All (Absent (ps ++ p ∷ [])) rows
Absent-after ps p [] h d = tt
Absent-after ps p (none ∷ rows) (h, hs) (d, ds) = (tt, Absent-after ps p rows hs ds)
Absent-after ps p (some k ∷ rows) (h, hs) (d, ds) = (
  All-append (λ q. q.jobid ≢ k.jobid) ps (p ∷ []) h ((λ e. d (sym e)), tt),
  Absent-after ps p rows hs ds,
)

restore-Grown :
    (s : Server) (j : Job)
    → IsFresh s
    → All (λ p. p.jobid ≢ j.jobid) s.active_jobs
    → Grown s j.jobid (restore s j)
unfolding restore
restore-Grown s j h k =
    let p : Job = record j { client_socket = pos 0 } in
    (
      joined-IsFresh s p _ h k (next_above s.jobids j.jobid).0 (next_above s.jobids j.jobid).1,
      Absent-after s.active_jobs p,
    )

same-Grown :
    (s t : Server) (id : ℤ)
    → IsFresh s
    → t.active_jobs ≡ s.active_jobs
    → t.jobids ≡ s.jobids
    → Grown s id t
same-Grown s t id h a n = (SameIds-IsFresh s t (rw a refl, n) h, λ rows. λ b. λ d. rw a b)

s_add_job-Grown :
    (e : Env) (s : Server) (j : Job)
    → IsFresh s
    → All (λ p. p.jobid ≢ j.jobid) s.active_jobs
    → Grown s j.jobid (s_add_job e s j)
unfolding s_add_job
s_add_job-Grown e s j h k = elim (Bool-cases (is_running j.state)) [
  | inl r ↦ elim (Bool-cases (ltb_ℤ (pos 0) j.info.pause_time && is_alive e j)) [
    | inl t ↦ rw (s_add_job, r, t) (restore-Grown s (as_paused e j) h k)
    | inr t ↦ elim (Bool-cases (is_alive e j)) [
      | inl l ↦ rw (s_add_job, r, t, l) (restore-Grown s j h k)
      | inr l ↦ rw (s_add_job, r, t, l) (same-Grown s _ j.jobid h refl refl)
    ]
  ]
  | inr r ↦ elim (Bool-cases (is_queued j.state || is_locked j.state)) [
    | inl t ↦
        rw (s_add_job, r, t)
          (restore-Grown (with_user s j.user add_queued) j (SameIds-IsFresh s _ (refl, refl) h) k)
    | inr t ↦ elim (Bool-cases (is_pause j.state)) [
      | inl q ↦ rw (s_add_job, r, t, q) (restore-Grown s (as_paused e j) h k)
      | inr q ↦ rw (s_add_job, r, t, q) (same-Grown s s j.jobid h refl refl)
    ]
  ]
]

add_jobs-IsFresh :
    (e : Env) (rows : List (Option Job)) (s : Server)
    → IsFresh s
    → Unique rows
    → All (Absent s.active_jobs) rows
    → IsFresh (add_jobs e rows s)
unfolding add_jobs
add_jobs-IsFresh e [] s h u a = h
add_jobs-IsFresh e (none ∷ rows) s h u (a, k) = add_jobs-IsFresh e rows s h u k
add_jobs-IsFresh e (some j ∷ rows) s h (d, u) (a, k) =
    let (h', g) = s_add_job-Grown e s j h a in
    add_jobs-IsFresh e rows (s_add_job e s j) h' u (g rows k d)

add_finished-IsFresh :
    (rows : List (Option Job)) (s : Server) → IsFresh s → IsFresh (add_finished rows s)
unfolding add_finished
add_finished-IsFresh [] s h = h
add_finished-IsFresh (none ∷ rows) s h = add_finished-IsFresh rows s h
add_finished-IsFresh (some j ∷ rows) s h =
    add_finished-IsFresh rows _ (SameIds-IsFresh s _ (refl, refl) h)

none-Absent : (rows : List (Option Job)) → All (Absent []) rows
none-Absent [] = tt
none-Absent (none ∷ rows) = (tt, none-Absent rows)
none-Absent (some j ∷ rows) = (tt, none-Absent rows)

-- Reading the database into a server without active jobs, from rows with distinct ids, leaves the
-- ids of the active jobs distinct and below the next id.
pub s_read_sqlite-IsFresh :
    (e : Env) (rows ended : List (Option Job)) (s : Server)
    → s.active_jobs ≡ []
    → Unique rows
    → IsFresh (s_read_sqlite e rows ended s)
unfolding s_read_sqlite
s_read_sqlite-IsFresh e rows ended s n u = add_finished-IsFresh ended _ (
    add_jobs-IsFresh e rows s (record { distinct = rw n tt; below = rw n tt }) u
      (rw n (none-Absent rows)))
