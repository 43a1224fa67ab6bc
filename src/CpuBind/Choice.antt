-- ===== src/CpuBind/Choice.antt =====
-- cpu_bind.c alloc_from_groups: the choice of the group to take processors from.
use task_spooler_plus.Base.{
  ℕ, suc, ℤ, pos, negsuc, ◌-ℤ◌, ◌≤ℤ◌, ◌<ℤ◌, ltb_ℤ, leb_ℤ, List, [], ◌∷◌, Option, none, some, true,
  ◌&&◌, ◌≡◌, refl, ◌≢◌, All, Bool-cases, inl, inr, arith, int_laws, parts,
}
use task_spooler_plus.CpuBind.{better_fit, best_fit, most_free, or_most_free, choose_group}
use task_spooler_plus.CpuBind.Took.{mem, mem_of_All, All-of_mem}

-- A group that is found in a best-fit search, with its excess.
abbrev Fits : (ℕ → ℤ) → List ℕ → ℕ → Option (ℕ × ℤ) → Type 0
Fits free gs n none = Unit
Fits free gs n (some (g, x)) = (mem g gs ≡ true) × (pos n ≤ℤ free g) × (x ≡ free g -ℤ pos n)

abbrev Below : Option (ℕ × ℤ) → ℤ → Type 0
Below none x = ⊥
Below (some (g, y)) x = y ≤ℤ x

module _ (free : ℕ → ℤ) (all : List ℕ) (n : ℕ) where
  better_fit-Fits :
      (g : ℕ) (best : Option (ℕ × ℤ))
      → mem g all ≡ true
      → Fits free all n best
      → Fits free all n (better_fit free g n best)
  unfolding better_fit
  better_fit-Fits g none m h = elim (Bool-cases (leb_ℤ (pos n) (free g))) [
    | inl e ↦ rw e (m, ground arith, refl)
    | inr e ↦ rw e tt
  ]
  better_fit-Fits g (some (k, x)) m h =
      elim (Bool-cases (leb_ℤ (pos n) (free g) && ltb_ℤ (free g -ℤ pos n) x)) [
        | inl e ↦ rw e (m, ground arith, refl)
        | inr e ↦ rw e h
      ]

  best_fit-Fits :
      (gs : List ℕ) (best : Option (ℕ × ℤ))
      → All (λ g. mem g all ≡ true) gs
      → Fits free all n best
      → Fits free all n (best_fit free gs n best)
  unfolding best_fit
  best_fit-Fits [] best m h = h
  best_fit-Fits (g ∷ gs) best m h = best_fit-Fits gs _ m.1 (better_fit-Fits g best m.0 h)

  better_fit-closer :
      (g : ℕ) (best : Option (ℕ × ℤ)) (x : ℤ) → Below best x → Below (better_fit free g n best) x
  unfolding better_fit
  better_fit-closer g none x h = absurd h
  better_fit-closer g (some (k, y)) x h =
      elim (Bool-cases (leb_ℤ (pos n) (free g) && ltb_ℤ (free g -ℤ pos n) y)) [
        | inl e ↦ rw e (ground arith)
        | inr e ↦ rw e h
      ]

  better_fit-fits :
      (g : ℕ) (best : Option (ℕ × ℤ))
      → pos n ≤ℤ free g
      → Below (better_fit free g n best) (free g -ℤ pos n)
  unfolding better_fit
  better_fit-fits g none h = elim (Bool-cases (leb_ℤ (pos n) (free g))) [
    | inl e ↦ rw e (ground arith)
    | inr e ↦ absurd (ground arith)
  ]
  better_fit-fits g (some (k, y)) h =
      elim (Bool-cases (leb_ℤ (pos n) (free g) && ltb_ℤ (free g -ℤ pos n) y)) [
        | inl e ↦ rw e (ground arith)
        | inr e ↦ rw e (ground arith)
      ]

  -- The excess that is found is at most the one before and that of each group that fits.
  best_fit-least :
      (gs : List ℕ) (best : Option (ℕ × ℤ))
      → ((x : ℤ) → Below best x → Below (best_fit free gs n best) x)
        × All (λ g. pos n ≤ℤ free g → Below (best_fit free gs n best) (free g -ℤ pos n)) gs
  unfolding best_fit
  best_fit-least [] best = (λ x h. h, tt)
  best_fit-least (g ∷ gs) best =
      let r = best_fit-least gs (better_fit free g n best) in
      (λ x h. r.0 x (better_fit-closer g best x h), (λ h. r.0 _ (better_fit-fits g best h), r.1))

-- The group found by the search for most free processors, and the count that it found.
module _ (free : ℕ → ℤ) where
  most_free-some : (gs : List ℕ) (g : ℕ) (m : ℤ) → most_free free gs (some g) m ≢ none
  unfolding most_free
  most_free-some [] g m h = cc
  most_free-some (k ∷ gs) g m h = elim (Bool-cases (ltb_ℤ (pos 0) (free k) && ltb_ℤ m (free k))) [
    | inl e ↦ most_free-some gs k (free k) (rw e at h)
    | inr e ↦ most_free-some gs g m (rw e at h)
  ]

  most_free-none :
      (gs : List ℕ) → most_free free gs none (negsuc 0) ≡ none → All (λ g. free g ≤ℤ pos 0) gs
  unfolding most_free
  most_free-none [] h = tt
  most_free-none (k ∷ gs) h =
      elim (Bool-cases (ltb_ℤ (pos 0) (free k) && ltb_ℤ (negsuc 0) (free k))) [
        | inl e ↦ absurd (most_free-some gs k (free k) (rw e at h))
        | inr e ↦ (ground arith, most_free-none gs (rw e at h))
      ]

  -- What is found has free processors, and no other group has more.
  most_free-from :
      (all gs : List ℕ) (g k : ℕ)
      → All (λ h. mem h all ≡ true) gs
      → mem g all ≡ true
      → pos 0 <ℤ free g
      → most_free free gs (some g) (free g) ≡ some k
      → (mem k all ≡ true) × (pos 0 <ℤ free k) × (free g ≤ℤ free k) × All (λ h. free h ≤ℤ free k) gs
  unfolding most_free
  most_free-from all [] g k a m p h =
      let e : g ≡ k = cc in (rw (← e) m, rw (← e) p, rw e (omega arith), tt)
  most_free-from all (c ∷ gs) g k a m p h =
      elim (Bool-cases (ltb_ℤ (pos 0) (free c) && ltb_ℤ (free g) (free c))) [
        | inl e ↦
            let r = most_free-from all gs c k a.1 a.0 (ground arith) (rw e at h) in
            (r.0, r.1, ground arith, (r.2, r.3))
        | inr e ↦
            let r = most_free-from all gs g k a.1 m p (rw e at h) in
            (r.0, r.1, r.2, (ground arith, r.3))
      ]

  most_free-most :
      (all gs : List ℕ) (k : ℕ)
      → All (λ h. mem h all ≡ true) gs
      → most_free free gs none (negsuc 0) ≡ some k
      → (mem k all ≡ true) × (pos 0 <ℤ free k) × All (λ h. free h ≤ℤ free k) gs
  unfolding most_free
  most_free-most all [] k a h = cc
  most_free-most all (c ∷ gs) k a h =
      elim (Bool-cases (ltb_ℤ (pos 0) (free c) && ltb_ℤ (negsuc 0) (free c))) [
        | inl e ↦
            let r = most_free-from all gs c k a.1 a.0 (ground arith) (rw e at h) in
            (r.0, r.1, (r.2, r.3))
        | inr e ↦ let r = most_free-most all gs k a.1 (rw e at h) in (r.0, r.1, (ground arith, r.2))
      ]

  -- The group is one of the list with free processors. If some group of the list has enough for what
  -- is left, it has enough and no such group has fewer; if none has, no group has more. No group is
  -- found if none has free processors.
  abbrev pub IsChoice : List ℕ → ℕ → Option ℕ → Type 0
  IsChoice gs n none = All (λ h. free h ≤ℤ pos 0) gs
  IsChoice gs n (some g) =
      (mem g gs ≡ true)
      × (pos 0 <ℤ free g)
      × All
          (λ h.
            (pos n ≤ℤ free h → (pos n ≤ℤ free g) × (free g ≤ℤ free h))
            × (free g <ℤ pos n → free h ≤ℤ free g))
          gs

  every_mem : (gs : List ℕ) → All (λ h. mem h gs ≡ true) gs
  every_mem gs = mem_of_All _ gs λ c m. m

  most_free-IsChoice :
      (gs : List ℕ) (n : ℕ) (m : Option ℕ)
      → most_free free gs none (negsuc 0) ≡ m
      → All (λ g. pos n ≤ℤ free g → ⊥) gs
      → IsChoice gs n m
  most_free-IsChoice gs n none e l = most_free-none gs e
  most_free-IsChoice gs n (some g) e l =
      let r = most_free-most gs gs g (every_mem gs) e in
      (
        r.0,
        r.1,
        mem_of_All _ gs λ h m. (
          λ fit. absurd (All-of_mem (λ k. pos n ≤ℤ free k → ⊥) gs h l m fit),
          λ lt. All-of_mem (λ k. free k ≤ℤ free g) gs h (r.2) m,
        ),
      )

  or_most_free-IsChoice :
      (gs : List ℕ) (n : ℕ) (best : Option (ℕ × ℤ))
      → Fits free gs (suc n) best
      → All (λ g. pos (suc n) ≤ℤ free g → Below best (free g -ℤ pos (suc n))) gs
      → IsChoice gs (suc n) (or_most_free free gs best)
  unfolding or_most_free
  or_most_free-IsChoice gs n none f l = most_free-IsChoice gs (suc n) _ refl l
  or_most_free-IsChoice gs n (some (g, x)) f l = (
    f.0,
    omega (arith, f.1),
    mem_of_All _ gs λ h m. (
      λ fit.
          let b =
            All-of_mem (λ k. pos (suc n) ≤ℤ free k → x ≤ℤ free k -ℤ pos (suc n)) gs h l m fit in
          (f.1, omega (int_laws, b, parts (f.2))),
      λ lt. absurd (omega (arith, lt, f.1)),
    ),
  )

  -- alloc_from_groups takes from a group of its list with free processors. If some group has
  -- enough for what is left, the group has enough and none that has enough has fewer; if none has,
  -- no group has more. It finds no group only if none has free processors.
  pub choose_group-IsChoice :
      (gs : List ℕ) (n : ℕ) → IsChoice gs (suc n) (choose_group free gs (suc n))
  unfolding choose_group
  choose_group-IsChoice gs n =
      or_most_free-IsChoice gs n _ (best_fit-Fits free gs (suc n) gs none (every_mem gs) tt)
        ((best_fit-least free gs (suc n) gs none).1)
