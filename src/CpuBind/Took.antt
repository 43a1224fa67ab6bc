-- ===== src/CpuBind/Took.antt =====
-- cpu_bind.c: what it is that processors were taken for a job, and the count of free ones.
use task_spooler_plus.Base.{
  ℕ, ℤ, pos, ◌+◌, ◌==ℤ◌, ◌==◌, List, [], ◌∷◌, ◌++◌, Bool, true, false, ◌||◌, if◌then◌else◌, ◌≡◌,
  refl, All, Bool-cases, inl, inr, arith,
}
use task_spooler_plus.CpuBind.{update}

unfoldable pub mem : ℕ → List ℕ → Bool
mem c [] = false
mem c (x ∷ xs) = (x == c) || mem c xs

abbrev pub Distinct : List ℕ → Type 0
Distinct [] = Unit
Distinct (x ∷ xs) = (mem x xs ≡ false) × Distinct xs

unfoldable pub count_free : (ℕ → ℤ) → List ℕ → ℕ
count_free o [] = 0
count_free o (c ∷ cs) = (if o c ==ℤ pos 0 then 1 else 0) + count_free o cs

-- The distinct processors `cs`, which were free, are those of a job now, and nothing else changed.
pub record Took (o o' : ℕ → ℤ) (id : ℤ) (cs : List ℕ) : Type 0 where
  pub were_free : All (λ c. o c ≡ pos 0) cs
  pub are_distinct : Distinct cs
  pub owner_is : (c : ℕ) → o' c ≡ (if mem c cs then id else o c)

pub ==_iff : (a b : ℕ) → (a == b) ≡ true → a ≡ b
==_iff a b h = ground arith

pub mem-append : (c : ℕ) (xs ys : List ℕ) → mem c (xs ++ ys) ≡ (mem c xs || mem c ys)
unfolding mem
mem-append c [] ys = refl
mem-append c (x ∷ xs) ys = ground (arith, mem-append c xs ys)

pub All-of_mem {ℓ} : (P : ℕ → Type ℓ) (xs : List ℕ) (c : ℕ) → All P xs → mem c xs ≡ true → P c
unfolding mem
All-of_mem P [] c h m = cc
All-of_mem P (x ∷ xs) c h m = elim (Bool-cases (x == c)) [
  | inl e ↦ rw (← (==_iff x c e)) (h.0)
  | inr e ↦ All-of_mem P xs c h.1 (ground (arith, e, m))
]

pub mem_of_All {ℓ} : (P : ℕ → Type ℓ) (xs : List ℕ) → ((c : ℕ) → mem c xs ≡ true → P c) → All P xs
unfolding mem
mem_of_All P [] h = tt
mem_of_All P (x ∷ xs) h = (h x (ground arith), mem_of_All P xs λ c m. h c (ground (arith, m)))

pub Distinct-append :
    (xs ys : List ℕ)
    → Distinct xs
    → Distinct ys
    → All (λ c. mem c ys ≡ false) xs
    → Distinct (xs ++ ys)
Distinct-append [] ys dx dy h = dy
Distinct-append (x ∷ xs) ys dx dy h =
    (ground (arith, mem-append x xs ys, h.0, dx.0), Distinct-append xs ys dx.1 dy h.1)

pub count_free-ext :
    (o o' : ℕ → ℤ) (cs : List ℕ) → All (λ c. o c ≡ o' c) cs → count_free o cs ≡ count_free o' cs
unfolding count_free
count_free-ext o o' [] h = refl
count_free-ext o o' (c ∷ cs) h = ground (arith, h.0, count_free-ext o o' cs h.1)

pub count_free-update :
    (o : ℕ → ℤ) (c : ℕ) (v : ℤ) (cs : List ℕ)
    → mem c cs ≡ false
    → count_free (update o c v) cs ≡ count_free o cs
unfolding count_free mem
count_free-update o c v [] h = refl
count_free-update o c v (d ∷ cs) h = ground (arith, count_free-update o c v cs)
