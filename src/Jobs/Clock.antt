-- ===== src/Jobs/Clock.antt =====
-- jobs.c pause_job_config and rerun_job_config, runtime_limit.c get_work_time_by_job: the time for which
-- a job is paused is not work time.
use task_spooler_plus.Base.{
  ℤ, pos, ◌+ℤ◌, ◌-ℤ◌, ◌≡◌, ◌≢◌, refl, ap, ◌∙◌, true, false, Bool-cases, inl, inr, int_laws, ◌==ℤ◌,
  ==ℤ_iff,
}
use task_spooler_plus.State.{Job, Server, Env, running, pause}
use task_spooler_plus.Jobs.{pause_job_config, rerun_job_config, get_work_time_by_job}

not_zero : (a : ℤ) → a ≢ pos 0 → (a ==ℤ pos 0) ≡ false
not_zero a h = elim (Bool-cases (a ==ℤ pos 0)) [
  | inl t ↦ absurd (h ((==ℤ_iff a (pos 0)).0 t))
  | inr t ↦ t
]

-- A job that is paused at one time and runs again at another.
abbrev pub paused_then_run : Env → Env → Server → Job → Job
paused_then_run e1 e2 s p =
    record (rerun_job_config e2 (pause_job_config e1 s p).0
      (record (pause_job_config e1 s p).1 { state = pause })).1 { state = running }

paused-job :
    (e : Env) (s : Server) (p : Job)
    → (p.info.pause_time ==ℤ pos 0) ≡ true
    → (pause_job_config e s p).1 ≡ record p { info = record (p.info) { pause_time = e.now } }
unfolding pause_job_config
paused-job e s p c = rw c refl

rerun-job :
    (e : Env) (s : Server) (p : Job)
    → (p.info.pause_time ==ℤ pos 0) ≡ false
    → (rerun_job_config e s p).1 ≡ record p {
      info = record (p.info) {
        pause_time = pos 0;
        pause_duration = p.info.pause_duration +ℤ (e.now -ℤ p.info.pause_time);
      };
    }
unfolding rerun_job_config
rerun-job e s p c = rw c refl

at_pause :
    (e1 e2 : Env) (p : Job)
    → p.state ≡ running
    → get_work_time_by_job e2
        (record p { info = record (p.info) { pause_time = e1.now }; state = pause })
      ≡ get_work_time_by_job e1 p
unfolding get_work_time_by_job
at_pause e1 e2 p r = rw r refl

after_pause :
    (e1 e2 e3 : Env) (p : Job)
    → p.state ≡ running
    → get_work_time_by_job e3 (record p {
      info = record (p.info) {
        pause_time = pos 0;
        pause_duration = p.info.pause_duration +ℤ (e2.now -ℤ e1.now);
      };
      state = running;
    })
      ≡ get_work_time_by_job e1 p +ℤ (e3.now -ℤ e2.now)
unfolding get_work_time_by_job
after_pause e1 e2 e3 p r = rw r (omega int_laws)

-- For a job that runs and was not paused, with a clock that is not at 0, the work time stands
-- still while it is paused, and after that it goes on from where it was.
pub paused-work_time :
    (e1 e2 e3 : Env) (s : Server) (p : Job)
    → p.state ≡ running
    → p.info.pause_time ≡ pos 0
    → e1.now ≢ pos 0
    → (get_work_time_by_job e2 (record (pause_job_config e1 s p).1 { state = pause })
        ≡ get_work_time_by_job e1 p)
      × (get_work_time_by_job e3 (paused_then_run e1 e2 s p)
          ≡ get_work_time_by_job e1 p +ℤ (e3.now -ℤ e2.now))
paused-work_time e1 e2 e3 s p r z n =
    let q = paused-job e1 s p ((==ℤ_iff p.info.pause_time (pos 0)).1 z) in
    (
      ap (λ (v : Job). get_work_time_by_job e2 (record v { state = pause })) q ∙ at_pause e1 e2 p r,
      ap
            (λ (v : Job).
              get_work_time_by_job e3
                (record (rerun_job_config e2 (pause_job_config e1 s p).0
                  (record v { state = pause })).1 { state = running }))
            q
          ∙ ap (λ (v : Job). get_work_time_by_job e3 (record v { state = running }))
              (rerun-job e2 _
                (record p { info = record (p.info) { pause_time = e1.now }; state = pause })
                (not_zero e1.now n))
          ∙ after_pause e1 e2 e3 p r,
    )
