-- ===== src/Samples/Orders.antt =====
-- The theorems on the order of the queue, the wall times, clearing and waiting clients, on concrete
-- servers.
use task_spooler_plus.Base.{
  pos, negsuc, ◌+ℤ◌, ◌-ℤ◌, ◌≤ℤ◌, ◌<ℤ◌, ◌≡◌, refl, List, [], ◌∷◌, ◌++◌, some, Bool, true, false,
  arith, parts, All, get_elem?, ltb_ℤ, i64abs, neg,
}
use task_spooler_plus.State.{Job, Server, finished, is_running}
use task_spooler_plus.Outcome.{died}
use task_spooler_plus.Jobs.{
  find_idx, findjob_idx, findjob, find_finished_idx, find_finished_job, get_job,
}
use task_spooler_plus.Queue.{s_move_urgent, s_sort_jobs, new_wall_time, int64_max}
use task_spooler_plus.Queue.Order.{SameJobs, s_sort_jobs_lem, s_move_urgent-first}
use task_spooler_plus.Queue.WallTime.{new_wall_time-bounds}
use task_spooler_plus.Removal.{s_clear_finished}
use task_spooler_plus.Removal.Clearing.{others, s_clear_finished-others}
use task_spooler_plus.Removal.Waiters.{check_notify_list-dies}
use task_spooler_plus.Notify.{in_notify_list, check_notify_list}
use task_spooler_plus.Samples.{two_queued, one_running, running_job, job_of}

abbrev has_process : Job → Bool
has_process p = is_running p.state

-- The queue with its running job at the end.
abbrev unsorted : Server
unsorted = record one_running { active_jobs = job_of (pos 1001) 1 (pos 2) ∷ running_job ∷ [] }

s_sort_jobs_lem_example :
    SameJobs (s_sort_jobs unsorted).active_jobs unsorted.active_jobs
    × ((ps : List Job) × (qs : List Job) × ((s_sort_jobs unsorted).active_jobs ≡ ps ++ qs)
        × All (λ p. is_running p.state ≡ true) ps
        × All (λ p. is_running p.state ≡ false) qs)
s_sort_jobs_lem_example = s_sort_jobs_lem unsorted

s_move_urgent-first_example :
    ((p : Job) × (get_elem? (s_move_urgent two_queued (pos 5) (pos 1001)).active_jobs 0 ≡ some p)
      × (p.jobid ≡ pos 1001))
    × SameJobs (s_move_urgent two_queued (pos 5) (pos 1001)).active_jobs two_queued.active_jobs
unfolding find_idx findjob_idx
s_move_urgent-first_example =
    s_move_urgent-first two_queued (pos 5) (pos 1001) 1 (λ e. omega (arith, parts e)) refl

new_wall_time-bounds_example :
    (i64abs (negsuc 89) ≡ i64abs (negsuc 59) +ℤ pos 30)
    × (pos 0 <ℤ i64abs (negsuc 89))
    × (i64abs (negsuc 89) ≤ℤ int64_max)
    × (ltb_ℤ (negsuc 89) (pos 0) ≡ ltb_ℤ (negsuc 59) (pos 0))
unfolding new_wall_time i64abs neg ◌+ℤ◌ ◌-ℤ◌
new_wall_time-bounds_example =
    new_wall_time-bounds (negsuc 59) (pos 30) (negsuc 89) (omega arith) refl

abbrev two_ended : Server
two_ended = record two_queued {
  finished_jobs = job_of (pos 7) 1 (pos 1) ∷ job_of (pos 8) 0 (pos 1) ∷ [];
}

s_clear_finished-others_example :
    (s_clear_finished two_ended 1).finished_jobs ≡ others 1 two_ended.finished_jobs
s_clear_finished-others_example = s_clear_finished-others two_ended 1

-- A job that is being removed, is not to be kept, and for which the client on socket 9 waits.
abbrev removed_job : Job
removed_job = record (job_of (pos 1000) 1 (pos 2)) {
  state = finished;
  should_keep_finished = false;
}

abbrev waited_for : Server
waited_for = record one_running { active_jobs = removed_job ∷ [] }

check_notify_list-dies_example : check_notify_list waited_for (pos 1000) ≡ died
unfolding find_idx findjob_idx findjob find_finished_idx find_finished_job get_job in_notify_list
check_notify_list-dies_example =
    check_notify_list-dies waited_for (record { socket = pos 9; jobid = pos 1000 }) [] removed_job
      refl refl refl refl refl refl
