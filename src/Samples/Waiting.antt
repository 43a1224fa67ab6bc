-- ===== src/Samples/Waiting.antt =====
-- The theorems on the clients that wait. In the first the job 1000 of alice has ended and is not to be
-- kept. Two clients wait for it, and between them one for the job 1001.
use task_spooler_plus.Base.{
  pos, ◌++◌, map, length, ◌≡◌, refl, ◌∷◌, [], true, false, not, ◌&&◌, arith, parts,
}
use task_spooler_plus.State.{Job, Server, finished, default_result, send_endjob_ok}
use task_spooler_plus.Outcome.{ok}
use task_spooler_plus.Jobs.{
  emit, find_idx, findjob_idx, findjob, find_finished_idx, find_finished_job, get_job,
}
use task_spooler_plus.Notify.{in_notify_list, check_notify_list}
use task_spooler_plus.Removal.Waiting.{others, answers, has_socket}
use task_spooler_plus.Removal.Answering.{all_answered}
use task_spooler_plus.Removal.Answered.{check_notify_list-answers}
use task_spooler_plus.Finish.Ending.{Ended, room}
use task_spooler_plus.Finish.Recording.{IsRecord}
use task_spooler_plus.Jobs.Alike.{bare}
use task_spooler_plus.Connections.{Conn, Session, put_conn, with_server}
use task_spooler_plus.Answers.{endjob_request}
use task_spooler_plus.Requests.Endjob.{answered_from, endjob_request-answers}
use task_spooler_plus.Samples.{
  two_queued, job_of, one_running, one_running-Accounted, running_job, quiet_env,
}

abbrev ended_job : Job
ended_job = record (job_of (pos 1000) 1 (pos 2)) { state = finished; should_keep_finished = false }

abbrev three_wait : Server
three_wait = record two_queued {
  active_jobs = job_of (pos 1001) 1 (pos 2) ∷ [];
  finished_jobs = ended_job ∷ [];
  notifies =
      record { socket = pos 9; jobid = pos 1000 }
      ∷ record { socket = pos 10; jobid = pos 1001 }
      ∷ record { socket = pos 11; jobid = pos 1000 }
      ∷ [];
}

check_notify_list-answers_example :
    check_notify_list three_wait (pos 1000)
    ≡ ok (
        all_answered three_wait 0
          (in_notify_list three_wait.notifies (pos 1000) && not false)
          (others (pos 1000) three_wait.notifies)
          (answers (pos 1000) (pos 0) three_wait.notifies three_wait.out))
unfolding find_idx findjob_idx findjob find_finished_idx find_finished_job get_job has_socket
check_notify_list-answers_example =
    check_notify_list-answers three_wait ended_job 0 refl refl refl (refl, (refl, (refl, tt)))

-- The connection of the job 1000, which runs, and for which a client waits on socket 9.
abbrev running_conn : Conn
running_conn = record { jobid = pos 1000; socket = pos 7; hasjob = true; user = 1 }

abbrev one_client : Session
one_client = record { server = one_running; conns = running_conn ∷ []; jobsort_flag = false }

endjob_request-answers_example :
    (s' : Server) × (j : Job) × Ended one_running 0 running_job s'
    × IsRecord default_result running_job j
    × (map bare s'.finished_jobs ≡ map bare (room quiet_env one_running) ++ bare j ∷ [])
    × (endjob_request quiet_env one_client 0 running_conn default_result
        ≡ ok (
            put_conn
              (with_server one_client (
                emit (send_endjob_ok (pos 7) (pos 1000)) (
                  answered_from one_running s'
                    (length (room quiet_env one_running))
                    (pos 1000)
                    default_result
                    running_job)))
              0
              (record running_conn { hasjob = false })))
unfolding find_idx findjob_idx findjob has_socket
endjob_request-answers_example =
    endjob_request-answers quiet_env one_client 0 running_conn default_result 0 running_job
      one_running-Accounted (omega arith) refl (((λ e. omega (arith, parts e)), tt), (tt, tt)) refl
      (refl, tt)
