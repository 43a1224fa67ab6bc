-- ===== src/Finish/Recording.antt =====
-- jobs.c job_finished: the ended job is the last one on the list of finished jobs, with its result.
use task_spooler_plus.Base.{
  ℕ, zero, suc, ℤ, pos, leb_ℤ, ◌==ℤ◌, ==ℤ_refl, ==ℤ_iff, ◌≡◌, ◌≢◌, refl, ap, sym, ◌∙◌, List, [],
  ◌∷◌, ◌++◌, map, none, some, true, false, Bool-cases, Option-cases, get_elem?, remove_at, length,
  All, All-get, arith, inl, inr,
}
use task_spooler_plus.State.{Job, Result, Server, Env}
use task_spooler_plus.Jobs.{
  find_idx, findjob_idx, findjob, find_finished_idx, find_finished_job, get_job, free_cores,
}
use task_spooler_plus.Jobs.Alike.{bare, Alike, map-remove_at}
use task_spooler_plus.Notify.{has_ended}
use task_spooler_plus.Finish.{get_max_finished_jobs, with_end, with_result}
use task_spooler_plus.Finish.Ending.{ended, room, get-append_last}
use task_spooler_plus.Scheduler.Sound.{Distinct}

-- The ended job as it is recorded.
pub record IsRecord (r : Result) (p j : Job) : Type 0 where
  pub same_id : j.jobid ≡ p.jobid
  pub has_result : j.result ≡ r
  pub is_over : has_ended j ≡ true
  pub same_keep : j.should_keep_finished ≡ p.should_keep_finished

free_cores-keeps :
    (s : Server) (p : Job)
    → ((free_cores s p).1.jobid ≡ p.jobid)
      × ((free_cores s p).1.should_keep_finished ≡ p.should_keep_finished)
unfolding free_cores
free_cores-keeps s p = ground arith

ended-IsRecord : (e : Env) (s : Server) (r : Result) (p : Job) → IsRecord r p (ended e s r p)
unfolding with_result
ended-IsRecord e s r p = record {
  same_id = (free_cores-keeps s p).0;
  has_result = refl;
  is_over = ground arith;
  same_keep = (free_cores-keeps s p).1;
}

bare-IsRecord : (r : Result) (p j k : Job) → bare k ≡ bare j → IsRecord r p j → IsRecord r p k
bare-IsRecord r p j k e q = record {
  same_id = ap (λ (x : Job). x.jobid) e ∙ q.same_id;
  has_result = ap (λ (x : Job). x.result) e ∙ q.has_result;
  is_over = ap has_ended e ∙ q.is_over;
  same_keep = ap (λ (x : Job). x.should_keep_finished) e ∙ q.same_keep;
}

with_end-IsRecord :
    (e : Env) (r : Result) (p j : Job) → IsRecord r p j → IsRecord r p (with_end e r j)
unfolding with_end
with_end-IsRecord e r p j q = record {
  same_id = q.same_id;
  has_result = q.has_result;
  is_over = q.is_over;
  same_keep = q.same_keep;
}

pub recorded-IsRecord :
    (e : Env) (s : Server) (r : Result) (p j : Job)
    → bare j ≡ bare (ended e s r p)
    → IsRecord r p (with_end e r j)
recorded-IsRecord e s r p j b =
    with_end-IsRecord e r p j (bare-IsRecord r p (ended e s r p) j b (ended-IsRecord e s r p))

find_idx-bare : (ps : List Job) (id : ℤ) → find_idx (map bare ps) id ≡ find_idx ps id
unfolding find_idx
find_idx-bare [] id = refl
find_idx-bare (p ∷ ps) id = rw (find_idx-bare ps id)

pub find_idx-Alike : (ps qs : List Job) (id : ℤ) → Alike ps qs → find_idx ps id ≡ find_idx qs id
find_idx-Alike ps qs id a =
    sym (find_idx-bare ps id) ∙ ap (λ l. find_idx l id) a ∙ find_idx-bare qs id

find_idx-cons :
    (p : Job) (ps : List Job) (id : ℤ)
    → find_idx (p ∷ ps) id ≡ none
    → ((p.jobid ==ℤ id) ≡ false) × (find_idx ps id ≡ none)
unfolding find_idx
find_idx-cons p ps id h = elim (Bool-cases (p.jobid ==ℤ id)) [
  | inl e ↦ absurd (ground (arith, h, e))
  | inr e ↦ elim (Option-cases (find_idx ps id)) [
    | inl f ↦ (e, f)
    | inr (k, f) ↦ absurd (ground (arith, h, e, f))
  ]
]

find_idx-fresh :
    (ps : List Job) (id : ℤ) → All (λ (q : Job). q.jobid ≢ id) ps → find_idx ps id ≡ none
unfolding find_idx
find_idx-fresh [] id h = refl
find_idx-fresh (p ∷ ps) id h =
    let e : (p.jobid ==ℤ id) ≡ false = ground (arith, h.0, ==ℤ_iff p.jobid id) in
    rw e (rw (find_idx-fresh ps id h.1))

-- Without the only job of an id no job of that id is left.
pub find_idx-remove_at :
    (ps : List Job) (i : ℕ) (p : Job)
    → Distinct ps
    → get_elem? ps i ≡ some p
    → find_idx (remove_at ps i) p.jobid ≡ none
unfolding find_idx
find_idx-remove_at [] i p d g = refl
find_idx-remove_at (x ∷ ps) zero p d g =
    let e : x ≡ p = cc in
    ap (λ (q : Job). find_idx ps q.jobid) (sym e) ∙ find_idx-fresh ps x.jobid d.0
find_idx-remove_at (x ∷ ps) (suc i) p d g =
    let n = All-get _ ps i p d.0 g in
    let e : (x.jobid ==ℤ p.jobid) ≡ false = ground (arith, n, ==ℤ_iff x.jobid p.jobid) in
    rw e (rw (find_idx-remove_at ps i p d.1 g))

pub find_idx-last :
    (ps : List Job) (j : Job)
    → find_idx ps j.jobid ≡ none
    → find_idx (ps ++ j ∷ []) j.jobid ≡ some (length ps)
unfolding find_idx
find_idx-last [] j h = rw (==ℤ_refl j.jobid)
find_idx-last (p ∷ ps) j h =
    let (e, f) = find_idx-cons p ps j.jobid h in rw (e, find_idx-last ps j f)

find_idx-drop :
    (ps : List Job) (id : ℤ) → find_idx ps id ≡ none → find_idx (remove_at ps 0) id ≡ none
unfolding find_idx
find_idx-drop [] id h = refl
find_idx-drop (p ∷ ps) id h = (find_idx-cons p ps id h).1

pub find_idx-room :
    (e : Env) (s : Server) (id : ℤ)
    → find_idx s.finished_jobs id ≡ none
    → find_idx (room e s) id ≡ none
find_idx-room e s id h =
    elim (Bool-cases (leb_ℤ (get_max_finished_jobs e) (pos (length s.finished_jobs)))) [
      | inl t ↦ rw t (find_idx-drop s.finished_jobs id h)
      | inr t ↦ rw t h
    ]

Alike-length : (ps qs : List Job) → Alike ps qs → length ps ≡ length qs
Alike-length [] [] a = refl
Alike-length [] (q ∷ qs) a = cc
Alike-length (p ∷ ps) [] a = cc
Alike-length (p ∷ ps) (q ∷ qs) a =
    ap suc (Alike-length ps qs (let e : map bare ps ≡ map bare qs = cc in e))

map-snoc : (ps : List Job) (j : Job) → map bare (ps ++ j ∷ []) ≡ map bare ps ++ bare j ∷ []
map-snoc [] j = refl
map-snoc (p ∷ ps) j = ap (λ l. bare p ∷ l) (map-snoc ps j)

-- What is dropped to make room depends on the number of the finished jobs only.
pub room-Alike :
    (e : Env) (s t : Server) → Alike s.finished_jobs t.finished_jobs → Alike (room e s) (room e t)
room-Alike e s t a =
    let n = Alike-length s.finished_jobs t.finished_jobs a in
    elim (Bool-cases (leb_ℤ (get_max_finished_jobs e) (pos (length s.finished_jobs)))) [
      | inl q ↦
          let q' : leb_ℤ (get_max_finished_jobs e) (pos (length t.finished_jobs)) ≡ true =
            ap (λ k. leb_ℤ (get_max_finished_jobs e) (pos k)) (sym n) ∙ q in
          rw q (
            rw q' (
              map-remove_at s.finished_jobs 0
              ∙ ap (λ l. remove_at l 0) a
              ∙ sym (map-remove_at t.finished_jobs 0)))
      | inr q ↦
          let q' : leb_ℤ (get_max_finished_jobs e) (pos (length t.finished_jobs)) ≡ false =
            ap (λ k. leb_ℤ (get_max_finished_jobs e) (pos k)) (sym n) ∙ q in
          rw q (rw q' a)
    ]

-- The ended job is found on the list of finished jobs, at its end, and nowhere else.
pub record IsRecorded (e : Env) (s : Server) (r : Result) (p : Job) (s' : Server) : Type 0 where
  pub last_job : Job
  pub place : ℕ
  pub is_record : IsRecord r p last_job
  pub found : get_job s' p.jobid ≡ some last_job
  pub is_last : place ≡ length (room e s)
  pub is_list : map bare s'.finished_jobs ≡ map bare (room e s) ++ bare last_job ∷ []
  pub at_place : find_finished_idx s' p.jobid ≡ some place
  pub same_notifies : s'.notifies ≡ s.notifies

get_job-finished :
    (s : Server) (id : ℤ) (k : ℕ) (j : Job)
    → find_idx s.active_jobs id ≡ none
    → find_idx s.finished_jobs id ≡ some k
    → get_elem? s.finished_jobs k ≡ some j
    → get_job s id ≡ some j
unfolding get_job findjob findjob_idx find_finished_job find_finished_idx
get_job-finished s id k j a f g = rw (get_job, a) (rw (f, g) refl)

pub last-IsRecorded :
    (e : Env) (s s' : Server) (r : Result) (p j : Job) (ps : List Job)
    → IsRecord r p j
    → Alike ps (room e s)
    → find_idx s'.active_jobs p.jobid ≡ none
    → s'.finished_jobs ≡ ps ++ j ∷ []
    → find_idx ps p.jobid ≡ none
    → s'.notifies ≡ s.notifies
    → IsRecorded e s r p s'
unfolding find_finished_idx
last-IsRecorded e s s' r p j ps q w a f n k =
    let id = q.same_id in
    let at : find_idx s'.finished_jobs p.jobid ≡ some (length ps) =
      ap (λ l. find_idx l p.jobid) f
      ∙ (ap (find_idx (ps ++ j ∷ [])) (sym id) ∙ find_idx-last ps j (ap (find_idx ps) id ∙ n)) in
    record {
      last_job = j;
      place = length ps;
      is_record = q;
      found =
          get_job-finished s' p.jobid (length ps) j a at
            (ap (λ l. get_elem? l (length ps)) f ∙ get-append_last ps j);
      is_last = Alike-length ps (room e s) w;
      is_list = ap (map bare) f ∙ (map-snoc ps j ∙ ap (λ l. l ++ bare j ∷ []) w);
      at_place = at;
      same_notifies = k;
    }
