-- ===== src/Queue.antt =====
-- jobs.c and job_ops.c: the order of the queue (s_move_urgent, s_swap_jobs, s_sort_jobs), the number of
-- slots and the wall times (s_set_max_slots, s_add_wtime), and what is counted for a client
-- (s_count_running_jobs, s_kill_all_jobs, s_find_pid).
pub mod Order
pub mod WallTime
use mathlib.Core.Option
use task_spooler_plus.Base.{
  ℕ, zero, suc, ℤ, pos, negsuc, ◌-◌, ◌+ℤ◌, ◌-ℤ◌, ◌==ℤ◌, ◌==◌, leb_ℤ, ltb_ℤ, i64abs, neg, List, [],
  ◌∷◌, ◌++◌, Option, none, some, Bool, true, false, ◌||◌, ◌&&◌, not, if◌then◌else◌, get_elem?, set,
  length, remove_at,
}
use task_spooler_plus.State.{
  Job, Server, is_running, is_pause, send_list_line, movetop_db, swap_db, send_urgent_ok,
  send_swap_jobs_ok, send_count_running, send_pid, insert_or_replace_db, jobs_table,
}
use task_spooler_plus.Outcome.{Outcome, ok, died}
use task_spooler_plus.Jobs.{findjob_idx, findjob, emit, put_job}

-- Whether `s_move_urgent` finds a job to move, in its first search.
unfoldable pub has_urgent : Server → ℤ → Bool
has_urgent s id =
    if id ==ℤ negsuc 0
    then not (length s.active_jobs == 0)
    else elim (findjob_idx s id) [ none ↦ false | some i ↦ true ]

unfoldable pub s_move_urgent : Server → ℤ → ℤ → Server
s_move_urgent s sock id =
    let refuse : Server = emit (send_list_line sock) s in
    if has_urgent s id
    then elim (findjob_idx s id) [
      | none ↦ refuse
      | some i ↦ elim (get_elem? s.active_jobs i) [
        | none ↦ refuse
        | some p ↦
            emit (send_urgent_ok sock)
              (emit (movetop_db id) (record s { active_jobs = p ∷ remove_at s.active_jobs i }))
      ]
    ]
    else refuse

-- The jobs at two places, in each other's place.
unfoldable pub swap_at : List Job → ℕ → ℕ → List Job
swap_at ps i j = elim (get_elem? ps i) [
  | none ↦ ps
  | some p ↦ elim (get_elem? ps j) [ none ↦ ps | some q ↦ set (set ps i q) j p ]
]

unfoldable pub s_swap_jobs : Server → ℤ → ℤ → ℤ → Server
s_swap_jobs s sock id1 id2 = elim (findjob_idx s id1) [
  | none ↦ emit (send_list_line sock) s
  | some i ↦ elim (findjob_idx s id2) [
    | none ↦ emit (send_list_line sock) s
    | some j ↦
        emit (send_swap_jobs_ok sock)
          (emit (swap_db id1 id2) (record s { active_jobs = swap_at s.active_jobs i j }))
  ]
]

-- The two vectors that the loop of `s_sort_jobs` fills, in order.
unfoldable pub running_part : List Job → List Job
running_part [] = []
running_part (p ∷ ps) = if is_running p.state then p ∷ running_part ps else running_part ps

unfoldable pub other_part : List Job → List Job
other_part [] = []
other_part (p ∷ ps) = if is_running p.state then other_part ps else p ∷ other_part ps

unfoldable pub s_sort_jobs : Server → Server
s_sort_jobs s = record s { active_jobs = running_part s.active_jobs ++ other_part s.active_jobs }

unfoldable pub s_set_max_slots : Server → ℤ → ℤ → Server
s_set_max_slots s sock n =
    let t : Server = if ltb_ℤ (pos 0) n then record s { max_slots = n } else s in
    if ltb_ℤ (pos 0) sock then emit (send_list_line sock) t else t

-- The largest value of int64_t.
abbrev pub int64_max : ℤ
int64_max = pos 9223372036854775807

-- The new wall time of a job, if the change is allowed.
unfoldable pub new_wall_time : ℤ → ℤ → Option ℤ
new_wall_time old add =
    let abs_wtime = i64abs old in
    if ltb_ℤ (pos 0) add && ltb_ℤ (int64_max -ℤ add) abs_wtime
    then none
    else (let w = abs_wtime +ℤ add in
        if leb_ℤ w (pos 0) then none else some (if ltb_ℤ old (pos 0) then neg w else w))

unfoldable pub s_add_wtime : Server → ℤ → ℤ → ℤ → Server
s_add_wtime s sock id add =
    let refuse : Server = emit (send_list_line sock) s in
    if id ==ℤ pos 0 then refuse else elim (findjob s id) [
      | none ↦ refuse
      | some (i, p) ↦ elim (new_wall_time p.wall_time add) [
        | none ↦ refuse
        | some w ↦ emit (send_list_line sock) (
            emit (insert_or_replace_db p.jobid jobs_table)
              (put_job s i (record p { wall_time = w })))
      ]
    ]

-- Whether a client of user `u` may see a running job: root sees all.
abbrev pub is_running_for : ℕ → Job → Bool
is_running_for u p = is_running p.state && (u == 0 || p.user == u)

unfoldable pub count_running_for : ℕ → List Job → ℕ
count_running_for u [] = 0
count_running_for u (p ∷ ps) =
    let rest = count_running_for u ps in if is_running_for u p then suc rest else rest

unfoldable pub s_count_running_jobs : Server → ℤ → ℕ → Server
s_count_running_jobs s sock u = emit (send_count_running sock (count_running_for u s.active_jobs)) s

unfoldable pub send_pids : List Job → ℤ → ℕ → Server → Server
send_pids [] sock u s = s
send_pids (p ∷ ps) sock u s =
    send_pids ps sock u (if is_running_for u p then emit (send_pid sock p.pid) s else s)

unfoldable pub s_kill_all_jobs : Server → ℤ → ℕ → Server
s_kill_all_jobs s sock u = send_pids s.active_jobs sock u (s_count_running_jobs s sock u)

-- `is_descendant_pid` reads /proc; the answer for each pair of processes is an argument.
unfoldable pub find_pid : List Job → (ℤ → ℤ → Bool) → ℤ → Bool → ℤ
find_pid [] descends target deep = negsuc 0
find_pid (p ∷ ps) descends target deep =
    let rest = find_pid ps descends target deep in
    if not (is_running p.state) && not (is_pause p.state)
    then rest
    else if leb_ℤ p.pid (pos 0)
    then rest
    else if p.pid ==ℤ target
    then p.jobid
    else if deep && descends p.pid target
    then p.jobid
    else rest

unfoldable pub s_find_pid : Server → (ℤ → ℤ → Bool) → ℤ → Bool → ℤ
s_find_pid s descends target deep =
    if leb_ℤ target (pos 0) then negsuc 0 else find_pid s.active_jobs descends target deep
