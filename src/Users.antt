-- ===== src/Users.antt =====
-- server_user.c: holding, continuing and requeueing jobs, suspending users, locking the server. What
-- s_user_status and s_user_status_all print is not modelled.
pub mod Balance
pub mod Holding
pub mod Locker
pub mod Suspension
use mathlib.Core.Option
use task_spooler_plus.Base.{
  ℕ, zero, suc, ℤ, pos, negsuc, ◌-◌, ◌+ℤ◌, ◌-ℤ◌, ◌==ℤ◌, ◌==◌, leb_ℤ, ltb_ℤ, i64abs, neg, List, [],
  ◌∷◌, ◌++◌, Option, none, some, Bool, true, false, ◌||◌, ◌&&◌, not, if◌then◌else◌, get_elem?, set,
  length, remove_at,
}
use task_spooler_plus.State.{
  Job, User, Server, Env, Jobstate, queued, locked, pause, is_queued, is_running, is_pause,
  is_locked, send_list_line, update_field, wall_time_field, set_state_db, cgroups_thaw,
  movebottom_db,
}
use task_spooler_plus.Outcome.{Outcome, ok, died, ◌>>=◌}
use task_spooler_plus.Jobs.{
  findjob_idx, findjob, get_job, emit, put_job, for_each, with_user, is_sleep, config_running,
  safe_pause_job, s_relegate_job,
}
use task_spooler_plus.Usage.{s_update_slots_usage}

unfoldable pub s_get_job_user : Server → ℤ → Option ℕ
s_get_job_user s id = Option.map (λ (p : Job). p.user) (get_job s id)

abbrev pub unlock_user : User → User
unlock_user x = record x { max_slots = i64abs x.max_slots; is_locked_user = false }

abbrev pub lock_user : User → User
lock_user x = record x { max_slots = neg (i64abs x.max_slots); is_locked_user = true }

-- One turn of the loop of `s_resume_user`.
unfoldable pub resume_one : Env → ℕ → Server → ℕ → Job → Server
resume_one e u s i p =
    if p.user == u && is_pause p.state && not (p.pid ==ℤ pos 0)
    then elim (config_running e s p) [ none ↦ s | some (t, q) ↦ put_job t i q ]
    else s

unfoldable pub s_resume_user : Env → Server → ℤ → ℕ → Server
s_resume_user e s sock u =
    emit (send_list_line sock)
      (for_each (length s.active_jobs) 0 (resume_one e u) (with_user s u unlock_user))

-- One turn of the loop of `s_suspend_user`.
unfoldable pub suspend_one : Env → ℤ → ℕ → Server → ℕ → Job → Server
suspend_one e sock u s i p =
    if p.user == u && is_running p.state
    then (if p.pid ==ℤ pos 0
        then emit (send_list_line sock) s
        else (let (t, q) = safe_pause_job e s p in put_job t i (record q { state = pause })))
    else s

unfoldable pub s_suspend_user : Env → Server → ℤ → ℕ → Outcome Server
s_suspend_user e s sock u =
    s_update_slots_usage e (
      emit (send_list_line sock)
        (for_each (length s.active_jobs) 0 (suspend_one e sock u) (with_user s u lock_user)))
    >>= λ r. ok r.0

-- The users from `u` on, `n` of them.
unfoldable pub suspend_users : ℕ → ℕ → Env → ℤ → Server → Outcome Server
suspend_users zero u e sock s = ok s
suspend_users (suc n) u e sock s =
    s_suspend_user e s sock u >>= λ t. suspend_users n (suc u) e sock t

unfoldable pub s_suspend_user_all : Env → Server → ℤ → Outcome Server
s_suspend_user_all e s sock = suspend_users (length s.users - 1) 1 e sock s

unfoldable pub resume_users : ℕ → ℕ → Env → ℤ → Server → Server
resume_users zero u e sock s = s
resume_users (suc n) u e sock s = resume_users n (suc u) e sock (s_resume_user e s sock u)

unfoldable pub s_resume_user_all : Env → Server → ℤ → Server
s_resume_user_all e s sock = resume_users (length s.users - 1) 1 e sock s

-- The new server, and whether the server is locked for the user.
unfoldable pub s_check_locker : Env → Server → ℕ → Server × Bool
s_check_locker e s u = elim s.user_locker [
  | none ↦ (s, false)
  | some v ↦
      if ltb_ℤ (pos 30) (e.now -ℤ s.locker_time)
      then (record s { user_locker = none }, false)
      else (s, not (v == u))
]

-- `uid` is the id of the user `u`.
unfoldable pub s_lock_server : Env → Server → ℤ → ℕ → ℤ → Outcome Server
s_lock_server e s sock u uid =
    if uid ==ℤ pos 0
    then (s_update_slots_usage e s >>= λ r.
        ok (emit (send_list_line sock) (record r.0 { user_locker = some 0; locker_time = e.now })))
    else elim s.user_locker [
      | none ↦
          ok (emit (send_list_line sock) (record s { user_locker = some u; locker_time = e.now }))
      | some v ↦ ok (emit (send_list_line sock) s)
    ]

unfoldable pub s_unlock_server : Server → ℤ → ℕ → ℤ → Server
s_unlock_server s sock u uid = elim s.user_locker [
  | none ↦ emit (send_list_line sock) s
  | some v ↦
      if uid ==ℤ pos 0 || v == u
      then emit (send_list_line sock) (record s { user_locker = none })
      else emit (send_list_line sock) s
]

abbrev pub add_queue : ℤ → User → User
add_queue k x = record x { queue = x.queue +ℤ k }

unfoldable pub s_lock_queue : Server → ℕ → Job → Server
s_lock_queue s i p =
    if is_queued p.state
    then emit (set_state_db p.jobid locked)
        (put_job (with_user s p.user (add_queue (negsuc 0))) i (record p { state = locked }))
    else s

unfoldable pub s_unlock_queue : Server → ℕ → Job → Server
s_unlock_queue s i p =
    if is_locked p.state
    then emit (set_state_db p.jobid queued)
        (put_job (with_user s p.user (add_queue (pos 1))) i (record p { state = queued }))
    else s

abbrev pub is_owner : Job → ℕ → User → Bool
is_owner p u x = p.user == u || x.uid ==ℤ pos 0

-- `s_hold_job` on the job it found, up to the last message.
unfoldable pub hold_found : Env → Server → ℕ → User → ℕ → Job → Server
hold_found e s u x i p =
    if is_queued p.state
    then (if is_owner p u x then s_lock_queue s i p else s)
    else if is_locked p.state
    then s
    else if is_pause p.state
    then (if ltb_ℤ p.wall_time (pos 0)
        then emit (update_field wall_time_field p.jobid (i64abs p.wall_time))
            (put_job s i (record p { wall_time = i64abs p.wall_time }))
        else s)
    else if not (p.pid ==ℤ pos 0) && is_owner p u x
    then (let (t, q) = safe_pause_job e s p in put_job t i (record q { state = pause }))
    else s

-- `x` is the user at index `u`.
unfoldable pub s_hold_job : Env → Server → ℤ → ℤ → ℕ → User → Server
s_hold_job e s sock id u x = emit (send_list_line sock) (
    if ltb_ℤ x.max_slots (pos 0)
    then s
    else elim (findjob s id) [ none ↦ s | some (i, p) ↦ hold_found e s u x i p ])

-- Resuming a job that is neither queued, nor locked, nor running.
unfoldable pub cont_waiting : Env → Server → ℕ → User → ℕ → Job → Server
cont_waiting e s u x i p =
    if not (p.pid ==ℤ pos 0) && is_owner p u x
    then (if leb_ℤ (x.busy +ℤ p.num_slots) x.max_slots
          && leb_ℤ (s.busy_slots +ℤ p.num_slots) s.max_slots
        then elim (config_running e s p) [ none ↦ put_job s i p | some (t, q) ↦ put_job t i q ]
        else emit (update_field wall_time_field p.jobid (neg (i64abs p.wall_time)))
            (put_job s i (record p { wall_time = neg (i64abs p.wall_time) })))
    else put_job s i p

unfoldable pub cont_found : Env → Server → ℕ → User → ℕ → Job → Server
cont_found e s u x i p =
    if is_locked p.state
    then (if is_owner p u x then s_unlock_queue s i p else s)
    else if is_queued p.state
    then s
    else (let q : Job = record p { wall_time = i64abs p.wall_time } in
        if is_running p.state
        then (if is_sleep e q ==ℤ pos 0
            then put_job s i q
            else emit (cgroups_thaw p.jobid) (put_job s i q))
        else cont_waiting e s u x i q)

-- The user's record is read again after the recount.
unfoldable pub s_cont_job : Env → Server → ℤ → ℤ → ℕ → Outcome Server
s_cont_job e s sock id u = s_update_slots_usage e s >>= λ r. elim (get_elem? r.0.users u) [
  | none ↦ died
  | some x ↦ ok (
      emit (send_list_line sock) (
        if ltb_ℤ x.max_slots (pos 0)
        then r.0
        else elim (findjob r.0 id) [ none ↦ r.0 | some (i, p) ↦ cont_found e r.0 u x i p ]))
]

-- The move of a job to the end of the queue.
unfoldable pub move_to_end : Server → ℤ → Server
move_to_end s id = elim (findjob s id) [
  | none ↦ s
  | some (i, p) ↦
      emit (movebottom_db p.jobid) (record s { active_jobs = remove_at s.active_jobs i ++ p ∷ [] })
]

unfoldable pub s_requeue_job : Env → Server → ℤ → ℤ → ℕ → User → Server
s_requeue_job e s sock id u x = emit (send_list_line sock) (elim (findjob s id) [
  | none ↦ s
  | some (i, p) ↦
      if not (is_owner p u x)
      then s
      else if not (is_running p.state) && not (is_pause p.state)
      then s
      else (let (t, q) = s_relegate_job e s p in move_to_end (put_job t i q) id)
])
