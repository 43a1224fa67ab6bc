-- ===== src/Answers.antt =====
-- server.c client_read: the messages of clients, and the requests that take several steps. The messages
-- that change neither jobs nor users nor the connections (INFO, GET_LABEL, GET_CMD, ASK_OUTPUT,
-- GET_STATE, the environment, the log directory and the version) are answers; REFRESH_USERS and the
-- switch of the processor binding are left out.
use task_spooler_plus.Base.{
  ℕ, zero, suc, ℤ, pos, negsuc, ◌-ℤ◌, ◌==ℤ◌, ◌==◌, ltb_ℤ, String, List, [], ◌∷◌, Option, none, some,
  Bool, true, false, ◌||◌, ◌&&◌, not, if◌then◌else◌, get_elem?, length,
}
use task_spooler_plus.State.{
  Job, Result, User, Server, Env, running, is_running, is_finished, is_skipped, is_queued,
  is_delink, is_locked, is_wait, is_holding_client, close_connection, send_list_line,
  send_newjob_ok, send_newjob_nok, send_reconnect_ok, send_error_info, send_endjob_ok,
}
use task_spooler_plus.Outcome.{Outcome, ok, died, ◌>>=◌}
use task_spooler_plus.Jobs.{findjob, findjob_idx, get_job, emit}
use task_spooler_plus.Scheduler.{s_send_runjob}
use task_spooler_plus.Notify.{check_notify_list}
use task_spooler_plus.Finish.{change_found, job_finished}
use task_spooler_plus.Removal.{s_remove_job}
use task_spooler_plus.Queue.{s_move_urgent, s_swap_jobs, s_sort_jobs}
use task_spooler_plus.Newjob.{s_newjob}
use task_spooler_plus.Dependencies.{Request}
use task_spooler_plus.Users.{
  s_get_job_user, s_suspend_user, s_suspend_user_all, s_resume_user, s_resume_user_all,
  s_check_locker,
}
use task_spooler_plus.Connections.{
  Conn, Session, put_conn, with_server, remove_connection, clean_after_client_disappeared,
  release_job,
}

-- The messages of enum MsgTypes that a client sends, with what `client_read` reads of them. `lost` is a
-- connection on which nothing can be read any more.
pub data Message : Type 0 where
  lost refresh_users : Message
  lock_server unlock_server kill_server kill_all list_jobs last_id clear_finished count_running
        answered unknown :
      Message
  hold_job cont_job requeue_job suspend_user resume_user remove_job wait_job wait_running_job urgent
        set_max_slots :
      ℤ → Message
  newjob : Request → Bool → Message
  runjob_ok : Option String → ℤ → Message
  add_wtime swap_jobs reconnect : ℤ → ℤ → Message
  find_pid : ℤ → Bool → Message
  endjob : Result → Message

-- enum Break
pub data Break : Type 0 where
  break nobreak close : Break

-- The end of most requests: the socket is closed and the connection removed.
unfoldable pub finish_request : Session → ℤ → ℕ → Outcome (Session × Break)
finish_request z sock index =
    remove_connection (with_server z (emit (close_connection sock) z.server)) index >>= λ y.
    ok (y, nobreak)

-- The unlock of a server that was locked too long: a day for root, 30 seconds for a user.
unfoldable pub unlock_late : Env → Server → Server
unlock_late e s = elim s.user_locker [
  | none ↦ s
  | some v ↦ elim (get_elem? s.users v) [
    | none ↦ s
    | some x ↦
        if ltb_ℤ (if x.uid ==ℤ pos 0 then pos 86400 else pos 30) (e.now -ℤ s.locker_time)
        then record s { user_locker = none }
        else s
  ]
]

unfoldable pub find_user : List User → ℤ → Option ℕ
find_user [] uid = none
find_user (x ∷ xs) uid =
    let rest = find_user xs uid in
    if x.uid ==ℤ uid then some 0 else elim rest [ none ↦ none | some u ↦ some (suc u) ]

abbrev pub told : Server → ℤ → Server
told s sock = emit (send_list_line sock) s

-- SUSPEND_USER: a user suspends itself, root any user, or all with the id 0. A user that is not found is
-- a null pointer.
unfoldable pub suspend_request : Env → Server → ℤ → ℕ → ℤ → Outcome Server
suspend_request e s sock u uid =
    if not (u == 0)
    then (s_suspend_user e s sock u >>= λ t. ok (told t sock))
    else if uid ==ℤ pos 0
    then (s_suspend_user_all e s sock >>= λ t. ok (told t sock))
    else elim (find_user s.users uid) [
      | none ↦ died
      | some v ↦ s_suspend_user e s sock v >>= λ t. ok (told t sock)
    ]

unfoldable pub resume_request : Env → Server → ℤ → ℕ → ℤ → Outcome Server
resume_request e s sock u uid =
    if not (u == 0)
    then ok (told (s_resume_user e s sock u) sock)
    else if uid ==ℤ pos 0
    then ok (told (s_resume_user_all e s sock) sock)
    else elim (find_user s.users uid) [
      | none ↦ died
      | some v ↦ ok (told (s_resume_user e s sock v) sock)
    ]

unfoldable pub job_is_holding_client : Server → ℤ → Bool
job_is_holding_client s id = elim (findjob s id) [
  | none ↦ false
  | some (i, p) ↦ is_holding_client p.state
]

-- NEWJOB once `s_newjob` has answered.
unfoldable pub newjob_answer : Env → Session → ℕ → Conn → ℤ → Bool → Outcome Session
newjob_answer e z index c id wait_enqueuing =
    if id ==ℤ negsuc 0
    then clean_after_client_disappeared e
        (put_conn (with_server z (emit (send_newjob_nok c.socket) z.server)) index
          (record c { jobid = id; hasjob = false }))
        c.socket index
    else (let y = put_conn z index (record c { jobid = id; hasjob = true }) in
        if not (job_is_holding_client y.server id)
        then ok (with_server y (emit (send_newjob_ok c.socket id) y.server))
        else if wait_enqueuing
        then ok y
        else clean_after_client_disappeared e
            (with_server y (emit (send_newjob_nok c.socket) y.server)) c.socket index)

unfoldable pub newjob_request : Env → Session → ℕ → Conn → Request → Bool → Outcome Session
newjob_request e z index c m wait_enqueuing =
    let (s, refused) = s_check_locker e z.server c.user in
    if refused
    then ok (with_server z s)
    else (s_newjob e s c.socket m c.user >>= λ r.
        newjob_answer e (with_server z r.0) index c r.1 wait_enqueuing)

abbrev pub may_reconnect : Job → ℕ → Bool
may_reconnect p u =
    (is_queued p.state
      || is_delink p.state
      || is_running p.state
      || is_locked p.state
      || is_wait p.state)
    && p.user == u

abbrev pub pid_differs : Job → ℤ → Bool
pid_differs p pid = not (p.pid ==ℤ pos 0) && not (p.pid ==ℤ pid) && not (pid ==ℤ pos 0)

abbrev pub reconnected : ℤ → Job → Job
reconnected sock p = record p {
  state = if is_delink p.state then running else p.state;
  client_socket = sock;
}

abbrev pub is_refused : Job → ℕ → ℤ → Bool
is_refused p u pid =
    is_finished p.state || is_skipped p.state || not (may_reconnect p u) || pid_differs p pid

-- The job in the hands of the connection, and in no other's.
unfoldable pub hand_over : Session → ℕ → Conn → ℤ → Session
hand_over z index c id =
    let s : Server = elim (findjob_idx z.server id) [
      | some i ↦ record z.server {
        active_jobs = change_found z.server.active_jobs id (reconnected c.socket);
      }
      | none ↦ record z.server {
        finished_jobs = change_found z.server.finished_jobs id (reconnected c.socket);
      }
    ] in
    put_conn
      (record z {
        conns = release_job z.conns 0 index id;
        server = emit (send_reconnect_ok c.socket id) s;
      })
      index (record c { hasjob = true; jobid = id })

-- A job that is marked as running, but whose client never started it, is sent to run again.
unfoldable pub run_again : Session → ℤ → Job → Outcome Session
run_again y sock p =
    if is_running (reconnected sock p).state && p.pid ==ℤ pos 0
    then (s_send_runjob y.server sock p.jobid >>= λ t. ok (with_server y t))
    else ok y

-- RECONNECT: the client of a restored job is back. Its job passes from any old connection to this one.
unfoldable pub reconnect_request : Session → ℕ → Conn → ℤ → ℤ → Outcome Session
reconnect_request z index c id pid =
    let refuse : Outcome Session =
      ok (with_server z (emit (send_error_info c.socket id) z.server)) in
    elim (get_job z.server id) [
      | none ↦ refuse
      | some p ↦
          if is_refused p c.user pid then refuse else run_again (hand_over z index c id) c.socket p
    ]

-- ENDJOB
unfoldable pub endjob_request : Env → Session → ℕ → Conn → Result → Outcome Session
endjob_request e z index c r = job_finished e z.server r c.jobid >>= λ s.
    check_notify_list s c.jobid >>= λ t. ok (
      put_conn (with_server z (emit (send_endjob_ok c.socket c.jobid) t)) index
        (record c { hasjob = false }))

-- The loop of REMOVEJOB from place `i`: after a removal the place is skipped.
unfoldable pub drop_clients : ℕ → Session → ℤ → ℕ → Outcome Session
drop_clients zero z id i = ok z
drop_clients (suc fuel) z id i = elim (get_elem? z.conns i) [
  | none ↦ ok z
  | some c ↦
      if c.hasjob && c.jobid ==ℤ id
      then (remove_connection
            (put_conn (with_server z (emit (close_connection c.socket) z.server)) i
              (record c { hasjob = false }))
            i
          >>= λ y. drop_clients fuel y id (suc i))
      else drop_clients fuel z id (suc i)
]

unfoldable pub remove_request : Env → Session → Conn → ℤ → Outcome Session
remove_request e z c id = s_remove_job e z.server c.socket id (some c.user) >>= λ r.
    let (s, id', went_ok) = r in
    if went_ok then drop_clients (length z.conns) (with_server z s) id' 0 else ok (with_server z s)

abbrev pub sorted : Session → Session
sorted z = if z.jobsort_flag then with_server z (s_sort_jobs z.server) else z

abbrev pub owns : Server → ℤ → ℕ → Bool
owns s id u = elim (s_get_job_user s id) [ none ↦ false | some v ↦ u == v ]

unfoldable pub urgent_request : Session → Conn → ℤ → Session
urgent_request z c id = sorted (
    if c.user == 0 || owns z.server id c.user
    then with_server z (s_move_urgent z.server c.socket id)
    else z)

unfoldable pub swap_request : Session → Conn → ℤ → ℤ → Session
swap_request z c id1 id2 = sorted (
    if c.user == 0 || (owns z.server id1 c.user && owns z.server id2 c.user)
    then with_server z (s_swap_jobs z.server c.socket id1 id2)
    else z)

abbrev pub going_on : Session → Outcome (Session × Break)
going_on z = ok (z, nobreak)
