-- ===== src/Samples/Requests.antt =====
-- The theorems on the requests of clients, on a session with two clients: alice has no job on her
-- connection, bob's connection carries the queued job 1001.
use task_spooler_plus.Base.{
  ℕ, ℤ, pos, ◌+ℤ◌, ◌-ℤ◌, ◌≡◌, refl, List, [], ◌∷◌, Bool, true, false, arith, map, neg, i64abs,
}
use task_spooler_plus.State.{Job, User, default_result}
use task_spooler_plus.Outcome.{Outcome, ok, died, endless}
use task_spooler_plus.Jobs.{
  find_idx, findjob_idx, findjob, get_job, find_finished_idx, find_finished_job,
}
use task_spooler_plus.Notify.{remove_socket, s_remove_notification}
use task_spooler_plus.Removal.{s_delete_job}
use task_spooler_plus.Queue.{count_running_for, s_count_running_jobs, send_pids, s_kill_all_jobs}
use task_spooler_plus.Connections.{
  Conn, Session, remove_connection, drop_job, clean_after_client_disappeared, job_is_running,
  remove_queues, s_remove_all_queues, release_job,
}
use task_spooler_plus.Requests.{client_read, handle}
use task_spooler_plus.Answers.{endjob, kill_all}
use task_spooler_plus.Answers.{
  Break, finish_request, unlock_late, reconnect_request, hand_over, run_again,
}
use task_spooler_plus.Requests.Reconnect.{reconnect_request-owner, carries}
use task_spooler_plus.Requests.Errors.{client_read-endjob}
use task_spooler_plus.Samples.{quiet_env, two_queued, job_of, root_user, alice}

abbrev bob : User
bob = record alice { name = "bob"; uid = pos 1001 }

abbrev alice_conn : Conn
alice_conn = record { jobid = pos 0; socket = pos 5; hasjob = false; user = 1 }

abbrev bob_conn : Conn
bob_conn = record { jobid = pos 1001; socket = pos 7; hasjob = true; user = 2 }

abbrev two_clients : Session
two_clients = record {
  server = record two_queued {
    users = root_user ∷ alice ∷ bob ∷ [];
    active_jobs = job_of (pos 1001) 2 (pos 2) ∷ [];
  };
  conns = alice_conn ∷ bob_conn ∷ [];
  jobsort_flag = false;
}

abbrev no_descent : ℤ → ℤ → Bool
no_descent a b = false

requested : ℕ
unfolding find_idx findjob_idx findjob get_job find_finished_idx find_finished_job remove_socket
    s_remove_notification s_delete_job count_running_for s_count_running_jobs send_pids
    s_kill_all_jobs remove_connection drop_job clean_after_client_disappeared job_is_running
    remove_queues s_remove_all_queues release_job client_read handle finish_request unlock_late
    reconnect_request hand_over run_again neg i64abs ◌+ℤ◌ ◌-ℤ◌
requested = 0

abbrev what_is_left : Outcome (Session × Break) → List ℤ × List ℤ
what_is_left died = ([], [])
what_is_left endless = ([], [])
what_is_left (ok r) =
    (map (λ (p : Job). p.jobid) r.0.server.active_jobs, map (λ (c : Conn). c.socket) r.0.conns)

-- A KILL_ALL of alice takes bob's queued job and connection away: her own connection is removed in the
-- loop, and the fall through to LIST removes the one that took its place.
kill_all-removes_other :
    what_is_left (client_read quiet_env no_descent two_clients 0 kill_all) ≡ ([], [])
unfolding requested
kill_all-removes_other = refl

client_read-endjob_example :
    client_read quiet_env no_descent two_clients 0 (endjob default_result) ≡ died
unfolding requested
client_read-endjob_example =
    client_read-endjob quiet_env no_descent two_clients 0 alice_conn alice default_result refl refl
      refl

-- A second connection of bob, on socket 8, takes the job over.
abbrev again_conn : Conn
again_conn = record { jobid = pos 0; socket = pos 8; hasjob = false; user = 2 }

abbrev back : Session
back = record two_clients { conns = again_conn ∷ bob_conn ∷ [] }

reconnected_session : Session
unfolding requested
reconnected_session = session_of (reconnect_request back 0 again_conn (pos 1001) (pos 0))
  where
    session_of : Outcome Session → Session
    session_of died = back
    session_of endless = back
    session_of (ok y) = y

reconnect_request-owner_example : carries (pos 1001) (record bob_conn { hasjob = false }) ≡ false
unfolding requested reconnected_session
reconnect_request-owner_example =
    reconnect_request-owner back reconnected_session 0 again_conn (pos 1001) (pos 0)
      (job_of (pos 1001) 2 (pos 2)) 1 (record bob_conn { hasjob = false }) refl refl refl refl
      (λ e. omega (arith, e))
