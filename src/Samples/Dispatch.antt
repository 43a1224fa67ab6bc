-- ===== src/Samples/Dispatch.antt =====
-- The theorems on the dispatch, on concrete servers.
use task_spooler_plus.Base.{
  ℕ, ℤ, pos, ◌≡◌, refl, List, [], ◌∷◌, map, arith, sum, ◌+ℤ◌, ◌-ℤ◌, parts, All, false, i64abs, neg,
}
use task_spooler_plus.State.{Job, Server}
use task_spooler_plus.Outcome.{Outcome, ok, died, endless}
use task_spooler_plus.Jobs.{
  find_idx, findjob_idx, findjob, find_finished_idx, find_finished_job, get_job, is_sleep,
  rerun_job_config, thaw_sleeper, occupy, config_running,
}
use task_spooler_plus.Scheduler.{
  find_holding, wake_hold_client, newjob_ok_to, wake_loop, wake_all_held_clients,
  s_mark_job_running, s_send_runjob, deps_ready, can_start, can_resume, is_eligible, find_eligible,
  resume_at, dispatch, round, run_loop, next_run_job,
}
use task_spooler_plus.Scheduler.Sound.{IsSound, Grows}
use task_spooler_plus.Scheduler.Loop.{
  next_run_job-IsSound, next_run_job-Grows, next_run_job-exhausts,
}
use task_spooler_plus.Scheduler.Rounds.{free_slots}
use task_spooler_plus.Samples.{quiet_env, two_queued, two_queued-IsSound, alice}

-- The functions that a run of the dispatch computes with.
computed : ℕ
unfolding find_idx findjob_idx findjob find_finished_idx find_finished_job get_job is_sleep
    rerun_job_config thaw_sleeper occupy config_running find_holding wake_hold_client newjob_ok_to
    wake_loop wake_all_held_clients s_mark_job_running s_send_runjob deps_ready can_start can_resume
    is_eligible find_eligible resume_at dispatch round run_loop next_run_job i64abs neg sum ◌+ℤ◌
    ◌-ℤ◌
computed = 0

abbrev states : Outcome (Server × ℕ) → List (ℤ × ℤ)
states died = []
states endless = []
states (ok r) = map (λ (p : Job). (p.jobid, p.num_allocated)) r.0.active_jobs

two_queued-run :
    states (next_run_job quiet_env two_queued) ≡ (pos 1000, pos 2) ∷ (pos 1001, pos 0) ∷ []
unfolding computed
two_queued-run = refl

next_run_job-IsSound_example :
    (s' : Server) × (m : ℕ) × (next_run_job quiet_env two_queued ≡ ok (s', m)) × IsSound s'
next_run_job-IsSound_example = next_run_job-IsSound quiet_env two_queued two_queued-IsSound

-- The server after the dispatch: job 1000 runs on two of the three slots, job 1001 waits.
abbrev end_of : Outcome (Server × ℕ) → Server
end_of died = two_queued
end_of endless = two_queued
end_of (ok r) = r.0

one_started : Server
unfolding computed
one_started = end_of (next_run_job quiet_env two_queued)

two_queued-dispatch : next_run_job quiet_env two_queued ≡ ok (one_started, 1)
unfolding computed one_started
two_queued-dispatch = refl

next_run_job-Grows_example : Grows two_queued one_started
next_run_job-Grows_example =
    next_run_job-Grows quiet_env two_queued one_started 1 two_queued-IsSound two_queued-dispatch

next_run_job-exhausts_example :
    All
      (λ p.
        is_eligible quiet_env one_started 1
          (record alice { busy = pos 2; jobs = pos 1; queue = pos 1 })
          (free_slots one_started)
          p
        ≡ false)
      one_started.active_jobs
unfolding one_started computed
next_run_job-exhausts_example =
    next_run_job-exhausts quiet_env two_queued one_started 1 1
      (record alice { busy = pos 2; jobs = pos 1; queue = pos 1 }) two_queued-IsSound
      two_queued-dispatch refl (λ e. omega (arith, parts e)) (omega arith)
