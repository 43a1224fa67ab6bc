-- ===== src/Removal/Clearing.antt =====
-- jobs.c s_clear_finished: the loop that removes from the end is a filter.
use task_spooler_plus.Base.{
  ℕ, zero, suc, ◌≤◌, ◌≡◌, refl, ap, sym, ◌∙◌, List, [], ◌∷◌, ◌++◌, none, some, ◌||◌, Bool-cases,
  Option-cases, inl, inr, arith, get_elem?, remove_at, length, length-remove_at, append-nil,
  append_assoc, if◌then◌else◌, ◌==◌,
}
use task_spooler_plus.State.{Job, Server}
use task_spooler_plus.Vec.{take, drop}
use task_spooler_plus.Removal.{clear_below, s_clear_finished}

-- The jobs that stay: those of other users, and none for root.
abbrev pub others : ℕ → List Job → List Job
others u [] = []
others u (p ∷ ps) = if p.user == u || u == 0 then others u ps else p ∷ others u ps

others-snoc :
    (u : ℕ) (ps : List Job) (i : ℕ) (p : Job)
    → get_elem? ps i ≡ some p
    → others u (take (suc i) ps)
      ≡ others u (take i ps) ++ (if p.user == u || u == 0 then [] else p ∷ [])
others-snoc u [] i p g = cc
others-snoc u (q ∷ ps) zero p g =
    let e : q ≡ p = ground arith in ap (λ (v : Job). if v.user == u || u == 0 then [] else v ∷ []) e
others-snoc u (q ∷ ps) (suc i) p g = elim (Bool-cases (q.user == u || u == 0)) [
  | inl t ↦ rw t (others-snoc u ps i p g)
  | inr t ↦ rw t (ap (λ l. q ∷ l) (others-snoc u ps i p g))
]

take-remove_at : (ps : List Job) (i : ℕ) → take i (remove_at ps i) ≡ take i ps
take-remove_at [] zero = refl
take-remove_at [] (suc i) = refl
take-remove_at (p ∷ ps) zero = refl
take-remove_at (p ∷ ps) (suc i) = ap (λ l. p ∷ l) (take-remove_at ps i)

drop-remove_at : (ps : List Job) (i : ℕ) → drop i (remove_at ps i) ≡ drop (suc i) ps
drop-remove_at [] zero = refl
drop-remove_at [] (suc i) = refl
drop-remove_at (p ∷ ps) zero = refl
drop-remove_at (p ∷ ps) (suc i) = drop-remove_at ps i

out_of_reach : (ps : List Job) (i : ℕ) → get_elem? ps i ≡ none → length ps ≤ i
out_of_reach [] i g = omega arith
out_of_reach (p ∷ ps) zero g = absurd (ground arith)
out_of_reach (p ∷ ps) (suc i) g = omega (arith, out_of_reach ps i g)

drop-get :
    (ps : List Job) (i : ℕ) (p : Job) → get_elem? ps i ≡ some p → drop i ps ≡ p ∷ drop (suc i) ps
drop-get [] i p g = cc
drop-get (q ∷ ps) zero p g = let e : q ≡ p = ground arith in ap (λ (v : Job). v ∷ ps) e
drop-get (q ∷ ps) (suc i) p g = drop-get ps i p g

clear_below-others :
    (n u : ℕ) (s : Server)
    → n ≤ length s.finished_jobs
    → (clear_below n u s).finished_jobs
      ≡ others u (take n s.finished_jobs) ++ drop n s.finished_jobs
unfolding clear_below
clear_below-others zero u s h = refl
clear_below-others (suc i) u s h = elim (Option-cases (get_elem? s.finished_jobs i)) [
  | inl n ↦ absurd (omega (arith, h, out_of_reach s.finished_jobs i n))
  | inr (p, g) ↦ elim (Bool-cases (p.user == u || u == 0)) [
    | inl t ↦
        rw (clear_below, g, t)
          (clear_below-others i u _
              (omega (arith, h, length-remove_at s.finished_jobs i (omega (arith, h))))
            ∙ rw (take-remove_at s.finished_jobs i, drop-remove_at s.finished_jobs i)
                (ap (λ l. l ++ drop (suc i) s.finished_jobs)
                  (sym (others-snoc u s.finished_jobs i p g ∙ rw t (append-nil _)))))
    | inr t ↦
        rw (clear_below, g, t)
          (clear_below-others i u s (omega (arith, h))
            ∙ rw (drop-get s.finished_jobs i p g) (
                sym (
                  ap (λ l. l ++ drop (suc i) s.finished_jobs)
                    (others-snoc u s.finished_jobs i p g ∙ rw t refl)
                  ∙ append_assoc (others u (take i s.finished_jobs)) (p ∷ [])
                      (drop (suc i) s.finished_jobs))))
  ]
]

take_all : (ps : List Job) → take (length ps) ps ≡ ps
take_all [] = refl
take_all (p ∷ ps) = ap (λ l. p ∷ l) (take_all ps)

drop_all : (ps : List Job) → drop (length ps) ps ≡ []
drop_all [] = refl
drop_all (p ∷ ps) = drop_all ps

-- Clearing leaves just the finished jobs of other users, in order, and none for root.
pub s_clear_finished-others :
    (s : Server) (u : ℕ) → (s_clear_finished s u).finished_jobs ≡ others u s.finished_jobs
unfolding s_clear_finished
s_clear_finished-others s u =
    clear_below-others (length s.finished_jobs) u s (omega arith)
    ∙ rw (take_all s.finished_jobs, drop_all s.finished_jobs)
        (append-nil (others u s.finished_jobs))
