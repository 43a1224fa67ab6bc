-- ===== src/Jobs/Loops.antt =====
-- jobs.c: what a loop over the active jobs keeps, and the balance of the server through the writes that
-- its turns make.
use task_spooler_plus.Base.{
  ℕ, zero, suc, ℤ, pos, ◌+ℤ◌, ◌≡◌, refl, ap, ◌∙◌, subst, List, [], ◌∷◌, ◌++◌, none, some, Bool,
  true, false, get_elem?, get_elem?-set_self, lt_of_get, remove_at, set, All-get, All-append,
  All-remove_at, arith, int_laws, parts, sum, sum-append, sum-remove_at, if◌then◌else◌, ◌==◌,
}
use task_spooler_plus.State.{Job, User, Server}
use task_spooler_plus.Jobs.{for_each, put_job, with_user}
use task_spooler_plus.Jobs.Balance.{
  Accounted, IsHeld, held, held_by, Moves, Moves-Accounted, change_user-get,
}
use task_spooler_plus.Jobs.Alike.{Accounted-remove, remove_at-set}

-- An invariant that each turn keeps.
pub for_each-keeps {ℓ} :
    (P : Server → Type ℓ) (f : Server → ℕ → Job → Server)
    → ((s : Server) (i : ℕ) (p : Job) → P s → get_elem? s.active_jobs i ≡ some p → P (f s i p))
    → (n i : ℕ) (s : Server) → P s
    → P (for_each n i f s)
unfolding for_each
for_each-keeps P f h zero i s a = a
for_each-keeps P f h (suc n) i s a = for_each-keeps P f h n (suc i) _ (
    elim (get_elem? s.active_jobs i)
        as (λ o. get_elem? s.active_jobs i ≡ o → P (elim o [ none ↦ s | some p ↦ f s i p ])) [
          | none ↦ λ g. a
          | some p ↦ λ g. h s i p a g
        ]
      refl)

same_busy : (b : Bool) (w y x : User) → w.busy ≡ y.busy → x ≡ (if b then w else y) → x.busy ≡ y.busy
same_busy true w y x h e = ap (λ (v : User). v.busy) e ∙ h
same_busy false w y x h e = ap (λ (v : User). v.busy) e

-- A write to a user that leaves the busy slots alone.
pub with_user-Accounted :
    (s : Server) (k : ℕ) (f : User → User)
    → ((x : User) → (f x).busy ≡ x.busy)
    → Accounted s
    → Accounted (with_user s k f)
with_user-Accounted s k f h a = record {
  total = a.total;
  each = λ u x g.
      let (y, g', e) = change_user-get s.users k u f x g in
      same_busy (k == u) (f y) y x (h y) e ∙ a.each u y g';
  each_job = a.each_job;
}

-- The job leaves its place after the operation.
pub Moves-leaves :
    (s s' : Server) (p p' : Job) (i : ℕ)
    → Accounted s
    → get_elem? s.active_jobs i ≡ some p
    → Moves s p s' p'
    → IsHeld p'
    → p'.num_allocated ≡ pos 0
    → Accounted (record s' { active_jobs = remove_at s'.active_jobs i })
Moves-leaves s s' p p' i a g m h z =
    let a1 = Moves-Accounted s s' p p' i a g m h in
    let k : get_elem? (set s'.active_jobs i p') i ≡ some p' =
      rw m.same_active (get_elem?-set_self s.active_jobs i p' (lt_of_get s.active_jobs i p g)) in
    subst (λ (l : List Job). Accounted (record s' { active_jobs = l }))
      (remove_at-set s'.active_jobs i p') (Accounted-remove (put_job s' i p') i p' a1 k z)

free_held_by : (u : ℕ) (p : Job) → p.num_allocated ≡ pos 0 → held_by u p ≡ pos 0
free_held_by u p h = ground arith

sum-one : (w : Job → ℤ) (ps : List Job) (p : Job) → sum w (ps ++ p ∷ []) ≡ sum w ps +ℤ w p
unfolding sum
sum-one w ps p = omega (int_laws, parts (sum-append w ps (p ∷ [])))

-- A job that holds no slot joins at the end.
pub Accounted-append :
    (s : Server) (p : Job)
    → Accounted s
    → IsHeld p
    → p.num_allocated ≡ pos 0
    → Accounted (record s { active_jobs = s.active_jobs ++ p ∷ [] })
Accounted-append s p a h z = record {
  total = omega (int_laws, parts a.total, parts (sum-one held s.active_jobs p), parts z);
  each = λ u x k. omega (
    int_laws,
    parts (a.each u x k),
    parts (sum-one (held_by u) s.active_jobs p),
    parts (free_held_by u p z),
  );
  each_job = All-append IsHeld s.active_jobs (p ∷ []) a.each_job (h, tt);
}

-- A job goes to the end of the queue.
pub Accounted-to_end :
    (s : Server) (i : ℕ) (p : Job)
    → Accounted s
    → get_elem? s.active_jobs i ≡ some p
    → Accounted (record s { active_jobs = remove_at s.active_jobs i ++ p ∷ [] })
Accounted-to_end s i p a g = record {
  total = omega (
    int_laws,
    parts a.total,
    parts (sum-one held (remove_at s.active_jobs i) p),
    parts (sum-remove_at held s.active_jobs i p g),
  );
  each = λ u x k. omega (
    int_laws,
    parts (a.each u x k),
    parts (sum-one (held_by u) (remove_at s.active_jobs i) p),
    parts (sum-remove_at (held_by u) s.active_jobs i p g),
  );
  each_job =
      All-append IsHeld (remove_at s.active_jobs i) (p ∷ [])
        (All-remove_at IsHeld s.active_jobs i a.each_job)
        (All-get IsHeld s.active_jobs i p a.each_job g, tt);
}
