-- ===== src/Jobs/Alike.antt =====
-- jobs.c: jobs that differ at most in the errors of what they depend on, and the balance of the server
-- when a job leaves the active jobs.
use task_spooler_plus.Base.{
  ℕ, zero, suc, pos, ◌+ℤ◌, ◌≡◌, refl, ap, sym, ◌∙◌, List, [], ◌∷◌, map, some, get_elem?, remove_at,
  set, All, All-remove_at, arith, int_laws, parts, sum, sum-remove_at,
}
use task_spooler_plus.State.{Job, Server}
use task_spooler_plus.Jobs.Balance.{Accounted, IsHeld, held, held_by}

-- A job without the errors of what it depends on.
abbrev pub bare : Job → Job
bare p = record p { dependency_errorlevel = pos 0 }

abbrev pub Alike : List Job → List Job → Type 0
Alike ps qs = map bare ps ≡ map bare qs

sum-bare-held : (ps : List Job) → sum held (map bare ps) ≡ sum held ps
unfolding sum
sum-bare-held [] = refl
sum-bare-held (p ∷ ps) = ap (λ k. p.num_allocated +ℤ k) (sum-bare-held ps)

sum-bare-held_by : (u : ℕ) (ps : List Job) → sum (held_by u) (map bare ps) ≡ sum (held_by u) ps
unfolding sum
sum-bare-held_by u [] = refl
sum-bare-held_by u (p ∷ ps) = ap (λ k. held_by u p +ℤ k) (sum-bare-held_by u ps)

to_bare : (ps : List Job) → All IsHeld ps → All IsHeld (map bare ps)
to_bare [] h = tt
to_bare (p ∷ ps) h = (h.0, to_bare ps h.1)

of_bare : (ps : List Job) → All IsHeld (map bare ps) → All IsHeld ps
of_bare [] h = tt
of_bare (p ∷ ps) h = (h.0, of_bare ps h.1)

pub Alike-get :
    (ps qs : List Job) (i : ℕ) (p : Job)
    → Alike qs ps
    → get_elem? ps i ≡ some p
    → (q : Job) × (get_elem? qs i ≡ some q) × (bare q ≡ bare p)
Alike-get [] qs i p h g = cc
Alike-get (x ∷ ps) [] i p h g = cc
Alike-get (x ∷ ps) (y ∷ qs) zero p h g =
    let e : bare y ≡ bare x = cc in let k : x ≡ p = ground arith in (y, refl, e ∙ ap bare k)
Alike-get (x ∷ ps) (y ∷ qs) (suc i) p h g =
    Alike-get ps qs i p (let e : map bare qs ≡ map bare ps = cc in e) g

pub map-remove_at : (ps : List Job) (i : ℕ) → map bare (remove_at ps i) ≡ remove_at (map bare ps) i
map-remove_at [] i = refl
map-remove_at (p ∷ ps) zero = refl
map-remove_at (p ∷ ps) (suc i) = ap (λ l. bare p ∷ l) (map-remove_at ps i)

pub map-set :
    (ps : List Job) (i : ℕ) (q : Job) → map bare (set ps i q) ≡ set (map bare ps) i (bare q)
map-set [] i q = refl
map-set (p ∷ ps) zero q = refl
map-set (p ∷ ps) (suc i) q = ap (λ l. bare p ∷ l) (map-set ps i q)

pub remove_at-set : (ps : List Job) (i : ℕ) (q : Job) → remove_at (set ps i q) i ≡ remove_at ps i
remove_at-set [] i q = refl
remove_at-set (p ∷ ps) zero q = refl
remove_at-set (p ∷ ps) (suc i) q = ap (λ l. p ∷ l) (remove_at-set ps i q)

-- The balance does not depend on what else is in a server.
pub Accounted-Alike :
    (s t : Server)
    → Accounted s
    → t.busy_slots ≡ s.busy_slots
    → t.users ≡ s.users
    → Alike t.active_jobs s.active_jobs
    → Accounted t
Accounted-Alike s t a b us h = record {
  total =
      b
      ∙ a.total
      ∙ sym (sum-bare-held s.active_jobs)
      ∙ ap (sum held) (sym h)
      ∙ sum-bare-held t.active_jobs;
  each = λ u x g.
      a.each u x (rw us at g)
      ∙ sym (sum-bare-held_by u s.active_jobs)
      ∙ ap (sum (held_by u)) (sym h)
      ∙ sum-bare-held_by u t.active_jobs;
  each_job = of_bare t.active_jobs (rw h (to_bare s.active_jobs a.each_job));
}

free_held_by : (u : ℕ) (p : Job) → p.num_allocated ≡ pos 0 → held_by u p ≡ pos 0
free_held_by u p h = ground arith

-- A job that holds no slot may leave.
pub Accounted-remove :
    (s : Server) (i : ℕ) (p : Job)
    → Accounted s
    → get_elem? s.active_jobs i ≡ some p
    → p.num_allocated ≡ pos 0
    → Accounted (record s { active_jobs = remove_at s.active_jobs i })
Accounted-remove s i p a g h = record {
  total = omega (int_laws, parts a.total, parts (sum-remove_at held s.active_jobs i p g), parts h);
  each = λ u x k. omega (
    int_laws,
    parts (a.each u x k),
    parts (sum-remove_at (held_by u) s.active_jobs i p g),
    parts (free_held_by u p h),
  );
  each_job = All-remove_at IsHeld s.active_jobs i a.each_job;
}
