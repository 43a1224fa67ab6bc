-- ===== src/Lib.antt =====
-- Task Spooler PLUS: the job server, jobs.c and the files it works with.
--
-- The server is one process. A client sends a message (msg.h), server.c calls the operation for it,
-- and the operation changes the globals of jobs.c, user.c, notify.c and server_user.c, answers on
-- the client's socket, and writes to the database and the control groups. Some operations begin or
-- end with s_update_slots_usage, and each turn of server_loop ends with next_run_job, which gives
-- the free slots to waiting jobs, and s_check_holdon.
--
-- State, with Outcome, models the data: `Server` has the globals (active_jobs, finished_jobs,
--   users_vec, the list of notifications, busy_slots, max_slots, jobids, the lock), `Job`, `User`,
--   `Result`, `Procinfo` and `Notify` are the structs, `Effect` is what the server sends or writes,
--   with the latest first in `out`, and `Outcome` is a result, the end of the process by error() or a
--   null pointer, or `endless`, where a loop of the model has used up its rounds.
-- Jobs models the searches (findjob, get_job) and the slots of one job (free_cores, config_running,
--   safe_pause_job, s_relegate_job); Jobs.Balance has the invariant `Accounted`, that the counters of
--   the server and of each user are the slots that the jobs hold.
-- Scheduler models next_run_job with all it calls, Finish the end of a job (job_finished,
--   new_finished_job, notify_errorlevel), Removal s_remove_job, s_delete_job, s_cleanup_orphan_queued
--   and s_clear_finished, Usage s_check_timeout, s_check_running_health and s_update_slots_usage,
--   Newjob with Dependencies s_newjob, Restart s_read_sqlite, s_process_runjob_ok and s_check_holdon.
-- Notify models notify.c, Users server_user.c, Queue the operations of jobs.c and job_ops.c on the
--   order of the queue, on wall times and on what clients ask, Vec the vector of vec.c.
-- UserFile models the file of the users (read_user_file of user.c) and its refresh (s_refresh_users).
-- Connections, Answers and Requests model the table of connections of server.c and client_read,
--   which composes the operations: one message on one connection is one call of `client_read`.
-- CpuBind models the allocator of cpu_bind.c, with the generated topology.h as the argument
--   `Topology`: CpuBind.Claim its start, its release and its claim after a restart, CpuBind.Owners the
--   invariant `IsConsistent`, that the counts, the table of owners and the list of allocations agree.
--   Defrag models the new placing of all allocations, Cpuset the text of a list of processors.
-- Life has the operations that move slots as steps of the server, in any order.
-- Base has the integers, the lists and the tests that all share, Samples the concrete servers.
--
-- A `struct Job *` is the job and its place in the list, written back by `put_job`; a `struct User
-- *` is an index into the users. The vectors of jobs are lists, which Vec relates to the blocks of
-- vec.c; there the allocator is an argument, with the documented bound PTRDIFF_MAX on what it
-- gives. The integers of C are unbounded, since their overflow is undefined, but for the 64-bit
-- wall times of s_add_wtime, whose bounds are checked, and the number of bytes in vec.c, which
-- wraps around at 2^64. The operating system is the argument `Env`: the clock, the control groups,
-- the state of processes, the sizes of files, the environment, the user file and whether a row can
-- be inserted. It is read as if it stood still during one operation. next_run_job loops until a
-- round starts no job; the model has 3 * n + 1 rounds for n active jobs, after which it is endless.
-- A job is woken, started or resumed at most once each, so some round before the last starts none.
-- An allocation of processors has place for `slots` of them: that more would be written past its
-- end is tested once, when the allocation is done. The loop of alloc_from_groups has a round for
-- each processor that is asked for, and one, since a round takes at least one; the loop of
-- cpu_bind_parse_cpuset has a round for each byte, and one. The operations of jobs.c are those of a
-- build without TS_CPU_BIND: they do not call the allocator, which is modelled by itself.
--
-- Not modelled: the select loop of server.c and the start of the server, the texts of messages, the
-- listings of list.c and job_ops.c, the SQL of sqlite.c, the control groups of cgroups.c and the thread
-- of cpu_bind.c that writes to them, the parsing of times in runtime_limit.c, the log file in user.c,
-- and the client, whose files are client.c, main.c and execute.c.
pub mod Base
pub mod State
pub mod Outcome
pub mod Jobs
pub mod Scheduler
pub mod Notify
pub mod Finish
pub mod Removal
pub mod Usage
pub mod Vec
pub mod CpuBind
pub mod Cpuset
pub mod Defrag
pub mod Queue
pub mod Dependencies
pub mod Newjob
pub mod Restart
pub mod Users
pub mod Connections
pub mod Answers
pub mod UserFile
pub mod Requests
pub mod Life
pub mod Samples
