-- ===== src/Connections.antt =====
-- server.c: the table of connections (struct Client_conn, remove_connection,
-- clean_after_client_disappeared, s_remove_all_queues) and the part of client_read before its switch.
use task_spooler_plus.Base.{
  ℕ, zero, suc, ℤ, pos, negsuc, ◌==ℤ◌, ◌==◌, ltb_ℤ, List, [], ◌∷◌, none, some, Bool, true, false,
  ◌||◌, ◌&&◌, not, if◌then◌else◌, get_elem?, set, length, remove_at, ◌++◌,
}
use task_spooler_plus.State.{
  Job, Result, Server, Env, is_running, is_pause, close_connection, kill_process,
}
use task_spooler_plus.Outcome.{Outcome, ok, died, ◌>>=◌}
use task_spooler_plus.Jobs.{findjob, emit}
use task_spooler_plus.Notify.{s_remove_notification, check_notify_list}
use task_spooler_plus.Finish.{job_finished}
use task_spooler_plus.Removal.{s_delete_job}

-- struct Client_conn. A connection without a known user is not kept.
pub record Conn : Type 0 where
  pub jobid : ℤ
  pub socket : ℤ
  pub hasjob : Bool
  pub user : ℕ

-- The globals of server.c: the server's state, client_cs up to nconnections, and jobsort_flag.
pub record Session : Type 0 where
  pub server : Server
  pub conns : List Conn
  pub jobsort_flag : Bool

abbrev pub put_conn : Session → ℕ → Conn → Session
put_conn z i c = record z { conns = set z.conns i c }

abbrev pub with_server : Session → Server → Session
with_server z s = record z { server = s }

-- A new connection, which `server_loop` accepts for a known user. The field `jobid` of the place is what
-- was there before.
unfoldable pub accept_connection : Session → ℤ → ℤ → ℕ → Session
accept_connection z stale sock u = record z {
  conns = z.conns ++ record { jobid = stale; socket = sock; hasjob = false; user = u } ∷ [];
}

unfoldable pub remove_connection : Session → ℕ → Outcome Session
remove_connection z index = elim (get_elem? z.conns index) [
  | none ↦ died
  | some c ↦ (if c.hasjob then s_delete_job z.server c.jobid else ok z.server) >>= λ s.
      ok (record z { server = s; conns = remove_at z.conns index })
]

-- The result of a job whose client went away while it ran.
abbrev pub quit_result : Result
quit_result = record {
  errorlevel = negsuc 0;
  died_by_signal = true;
  signal = pos 9;
  user_sec = pos 0;
  system_sec = pos 0;
  real_sec = pos 0;
  skipped_flag = false;
}

abbrev pub is_started : Job → Bool
is_started p = is_running p.state || is_pause p.state

-- The job of a client that disappeared: a started one is killed and ends, another leaves the queue.
unfoldable pub drop_job : Env → Server → ℤ → Outcome Server
drop_job e s id = elim (findjob s id) [
  | none ↦ ok s
  | some (i, p) ↦
      if is_started p
      then (job_finished e (if ltb_ℤ (pos 0) p.pid then emit (kill_process p.pid) s else s)
            quit_result id
          >>= λ t. check_notify_list t id)
      else s_delete_job s id
]

unfoldable pub clean_after_client_disappeared : Env → Session → ℤ → ℕ → Outcome Session
clean_after_client_disappeared e z sock index = elim (get_elem? z.conns index) [
  | none ↦ died
  | some c ↦
      (if c.hasjob then drop_job e z.server c.jobid else ok (s_remove_notification z.server sock))
      >>= λ s.
          remove_connection
            (put_conn (with_server z (emit (close_connection sock) s)) index
              (record c { hasjob = false }))
            index
]

unfoldable pub job_is_running : Server → ℤ → Bool
job_is_running s id = elim (findjob s id) [ none ↦ false | some (i, p) ↦ is_running p.state ]

-- The loop over the connections, `fuel` of which are left: a connection that is cleaned makes room for
-- the next one in its place.
unfoldable pub remove_queues : ℕ → Env → Session → ℕ → ℕ → Outcome Session
remove_queues zero e z u i = ok z
remove_queues (suc fuel) e z u i = elim (get_elem? z.conns i) [
  | none ↦ ok z
  | some c ↦
      if (u == 0 || c.user == u) && not (job_is_running z.server c.jobid)
      then (clean_after_client_disappeared e z c.socket i >>= λ y. remove_queues fuel e y u i)
      else remove_queues fuel e z u (suc i)
]

unfoldable pub s_remove_all_queues : Env → Session → ℕ → Outcome Session
s_remove_all_queues e z u = remove_queues (length z.conns) e z u 0

-- The connections that lose their job, but for one place: the loop of RECONNECT.
unfoldable pub release_job : List Conn → ℕ → ℕ → ℤ → List Conn
release_job [] here index id = []
release_job (c ∷ cs) here index id =
    (if not (here == index) && c.hasjob && c.jobid ==ℤ id then record c { hasjob = false } else c)
    ∷ release_job cs (suc here) index id
