-- ===== src/Notify.antt =====
-- notify.c: the clients that wait for the end of a job. A job that is not found where the code reads
-- through its pointer ends the server, as the read of a null pointer does.
pub mod Accounts
use task_spooler_plus.Base.{
  ℤ, pos, negsuc, ◌-◌, ◌==ℤ◌, ltb_ℤ, List, [], ◌∷◌, ◌++◌, Option, none, some, Bool, false, ◌||◌,
  ◌&&◌, not, if◌then◌else◌, get_elem?, length, remove_at,
}
use task_spooler_plus.State.{
  Job, Server, Notify, is_finished, is_skipped, send_waitjob_ok, send_list_line,
}
use task_spooler_plus.Outcome.{Outcome, ok, died, ◌>>=◌}
use task_spooler_plus.Jobs.{find_finished_idx, get_job, emit}

unfoldable pub in_notify_list : List Notify → ℤ → Bool
in_notify_list [] id = false
in_notify_list (n ∷ ns) id = n.jobid ==ℤ id || in_notify_list ns id

unfoldable pub add_to_notify_list : Server → ℤ → ℤ → Server
add_to_notify_list s sock id = record s {
  notifies = s.notifies ++ record { socket = sock; jobid = id } ∷ [];
}

-- Without the first entry of a socket.
unfoldable pub remove_socket : List Notify → ℤ → List Notify
remove_socket [] sock = []
remove_socket (n ∷ ns) sock = if n.socket ==ℤ sock then ns else n ∷ remove_socket ns sock

unfoldable pub s_remove_notification : Server → ℤ → Server
s_remove_notification s sock = record s { notifies = remove_socket s.notifies sock }

-- jobs.c
unfoldable pub destroy_finished_job : Server → Job → Outcome Server
destroy_finished_job s j = elim (find_finished_idx s j.jobid) [
  | none ↦ died
  | some i ↦ ok (record s { finished_jobs = remove_at s.finished_jobs i })
]

abbrev pub has_ended : Job → Bool
has_ended p = is_finished p.state || is_skipped p.state

-- The answer to one entry of an ended job: the message, the removal of the entry, and that of the
-- job when nobody else waits for it and it is not to be kept.
unfoldable pub answer_waiter : Server → Notify → Job → Outcome Server
answer_waiter s n j =
    let t =
      s_remove_notification (emit (send_waitjob_ok n.socket j.result.errorlevel) s) n.socket in
    if not (in_notify_list t.notifies n.jobid) && not j.should_keep_finished
    then destroy_finished_job t j
    else ok t

-- One turn of the loop in `check_notify_list`.
unfoldable pub check_notify : Server → ℤ → Notify → Outcome Server
check_notify s id n =
    if n.jobid ==ℤ id
    then elim (get_job s id) [
      | none ↦ died
      | some j ↦ if has_ended j then answer_waiter s n j else ok s
    ]
    else ok s

-- The entries after the current one stay in the list while it is walked, since only the first entry
-- of a socket is removed.
unfoldable pub check_notifies : List Notify → ℤ → Server → Outcome Server
check_notifies [] id s = ok s
check_notifies (n ∷ ns) id s = check_notify s id n >>= λ t. check_notifies ns id t

unfoldable pub check_notify_list : Server → ℤ → Outcome Server
check_notify_list s id = check_notifies s.notifies id s

abbrev last {ℓ} : {A : Type ℓ} → List A → Option A
last xs = get_elem? xs (length xs - 1)

-- The last active job, or else the last finished job.
unfoldable pub last_job : Server → Option Job
last_job s = elim (last s.active_jobs) [ some p ↦ some p | none ↦ last s.finished_jobs ]

-- The answer to a client that wants to wait for a job.
unfoldable pub wait_for : Server → ℤ → Option Job → Server
wait_for s sock none = emit (send_list_line sock) s
wait_for s sock (some p) =
    if has_ended p
    then emit (send_waitjob_ok sock p.result.errorlevel) s
    else add_to_notify_list s sock p.jobid

unfoldable pub s_wait_job : Server → ℤ → ℤ → Server
s_wait_job s sock id = wait_for s sock (if id ==ℤ negsuc 0 then last_job s else get_job s id)

unfoldable pub s_wait_running_job : Server → ℤ → ℤ → Outcome Server
s_wait_running_job s sock id =
    if id ==ℤ negsuc 0
    then (if ltb_ℤ (pos 0) s.busy_slots
        then elim s.active_jobs [ [] ↦ died | p ∷ _ ↦ ok (wait_for s sock (some p)) ]
        else ok (wait_for s sock (last s.finished_jobs)))
    else ok (wait_for s sock (get_job s id))
