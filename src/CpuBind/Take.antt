-- ===== src/CpuBind/Take.antt =====
-- cpu_bind.c take_from_group: the loop over the processors of a group.
use mathlib.Core.Bool.{false≢true}
use task_spooler_plus.Base.{
  ℕ, zero, suc, ℤ, pos, ◌+◌, ◌==ℤ◌, ==ℤ_iff, List, [], ◌∷◌, true, false, if◌then◌else◌, ◌≡◌, refl,
  ◌≢◌, All, length, leb, sym, subst, ◌∙◌, Bool-cases, inl, inr, arith,
}
use task_spooler_plus.CpuBind.{update, take_cores}
use task_spooler_plus.CpuBind.Took.{
  mem, Distinct, Took, count_free, count_free-update, ==_iff, mem_of_All, All-of_mem,
}

module _ (id : ℤ) (busy : id ≢ pos 0) where
  take_cores-free :
      (d : ℕ) (cs : List ℕ) (n : ℕ) (o : ℕ → ℤ)
      → (o d ==ℤ pos 0) ≡ true
      → take_cores (d ∷ cs) (suc n) id o
        ≡ (let r = take_cores cs n id (update o d id) in (r.0, d ∷ r.1))
  unfolding take_cores
  take_cores-free d cs n o e = rw (e, take_cores)

  take_cores-owned :
      (d : ℕ) (cs : List ℕ) (n : ℕ) (o : ℕ → ℤ)
      → (o d ==ℤ pos 0) ≡ false
      → take_cores (d ∷ cs) (suc n) id o ≡ take_cores cs (suc n) id o
  unfolding take_cores
  take_cores-owned d cs n o e = rw (e, take_cores)

  -- Only processors of the group are taken.
  pub take_cores-mem :
      (cs : List ℕ) (n : ℕ) (o : ℕ → ℤ) (c : ℕ)
      → mem c cs ≡ false
      → mem c (take_cores cs n id o).1 ≡ false
  unfolding take_cores mem
  take_cores-mem [] n o c h = refl
  take_cores-mem (d ∷ cs) zero o c h = refl
  take_cores-mem (d ∷ cs) (suc n) o c h = elim (Bool-cases (o d ==ℤ pos 0)) [
    | inl e ↦
        rw (take_cores-free d cs n o e) (ground (arith, h, take_cores-mem cs n (update o d id) c))
    | inr e ↦ rw (take_cores-owned d cs n o e) (ground (arith, h, take_cores-mem cs (suc n) o c))
  ]

  pub take_cores-owner :
      (cs : List ℕ) (n : ℕ) (o : ℕ → ℤ)
      → Distinct cs
      → (c : ℕ) → (take_cores cs n id o).0 c ≡ (if mem c (take_cores cs n id o).1 then id else o c)
  unfolding take_cores mem
  take_cores-owner [] n o dist c = refl
  take_cores-owner (d ∷ cs) zero o dist c = refl
  take_cores-owner (d ∷ cs) (suc n) o dist c = elim (Bool-cases (o d ==ℤ pos 0)) [
    | inl e ↦ rw (take_cores-free d cs n o e) (
        ground (
          arith,
          take_cores-owner cs n (update o d id) dist.1 c,
          take_cores-mem cs n (update o d id) d dist.0,
        ))
    | inr e ↦ rw (take_cores-owned d cs n o e) (take_cores-owner cs (suc n) o dist.1 c)
  ]

  pub take_cores-were_free :
      (cs : List ℕ) (n : ℕ) (o : ℕ → ℤ)
      → Distinct cs
      → All (λ c. o c ≡ pos 0) (take_cores cs n id o).1
  unfolding take_cores
  take_cores-were_free [] n o dist = tt
  take_cores-were_free (d ∷ cs) zero o dist = tt
  take_cores-were_free (d ∷ cs) (suc n) o dist = elim (Bool-cases (o d ==ℤ pos 0)) [
    | inl e ↦ rw (take_cores-free d cs n o e) (
      (==ℤ_iff _ _).0 e,
      mem_of_All (λ c. o c ≡ pos 0) _
          λ c m. ground (
            arith,
            All-of_mem (λ x. update o d id x ≡ pos 0) _ c
                (take_cores-were_free cs n (update o d id) dist.1) m,
            take_cores-mem cs n (update o d id) d dist.0,
            ==_iff c d,
          ),
    )
    | inr e ↦ rw (take_cores-owned d cs n o e) (take_cores-were_free cs (suc n) o dist.1)
  ]

  pub take_cores-Distinct :
      (cs : List ℕ) (n : ℕ) (o : ℕ → ℤ) → Distinct cs → Distinct (take_cores cs n id o).1
  unfolding take_cores
  take_cores-Distinct [] n o dist = tt
  take_cores-Distinct (d ∷ cs) zero o dist = tt
  take_cores-Distinct (d ∷ cs) (suc n) o dist = elim (Bool-cases (o d ==ℤ pos 0)) [
    | inl e ↦ rw (take_cores-free d cs n o e) (
      take_cores-mem cs n (update o d id) d dist.0,
      take_cores-Distinct cs n (update o d id) dist.1,
    )
    | inr e ↦ rw (take_cores-owned d cs n o e) (take_cores-Distinct cs (suc n) o dist.1)
  ]

  pub take_cores-Took :
      (cs : List ℕ) (n : ℕ) (o : ℕ → ℤ)
      → Distinct cs
      → Took o (take_cores cs n id o).0 id (take_cores cs n id o).1
  take_cores-Took cs n o dist = record {
    were_free = take_cores-were_free cs n o dist;
    are_distinct = take_cores-Distinct cs n o dist;
    owner_is = take_cores-owner cs n o dist;
  }

  -- What is taken is no longer free.
  pub take_cores-count :
      (cs : List ℕ) (n : ℕ) (o : ℕ → ℤ)
      → Distinct cs
      → count_free (take_cores cs n id o).0 cs + length (take_cores cs n id o).1 ≡ count_free o cs
  unfolding take_cores count_free
  take_cores-count [] n o dist = refl
  take_cores-count (d ∷ cs) zero o dist = omega arith
  take_cores-count (d ∷ cs) (suc n) o dist = elim (Bool-cases (o d ==ℤ pos 0)) [
    | inl e ↦
        subst
          (λ (r : (ℕ → ℤ) × List ℕ). count_free r.0 (d ∷ cs) + length r.1 ≡ count_free o (d ∷ cs))
          (sym (take_cores-free d cs n o e))
          (ground (
            arith,
            take_cores-count cs n (update o d id) dist.1,
            take_cores-owner cs n (update o d id) dist.1 d,
            take_cores-mem cs n (update o d id) d dist.0,
            count_free-update o d id cs dist.0,
          ))
    | inr e ↦
        subst
          (λ (r : (ℕ → ℤ) × List ℕ). count_free r.0 (d ∷ cs) + length r.1 ≡ count_free o (d ∷ cs))
          (sym (take_cores-owned d cs n o e))
          (ground (
            arith,
            take_cores-count cs (suc n) o dist.1,
            take_cores-owner cs (suc n) o dist.1 d,
            take_cores-mem cs (suc n) o d dist.0,
          ))
  ]

  -- As many are taken as asked for, or all the free ones.
  pub take_cores-length :
      (cs : List ℕ) (n : ℕ) (o : ℕ → ℤ)
      → Distinct cs
      → length (take_cores cs n id o).1 ≡ (if leb n (count_free o cs) then n else count_free o cs)
  unfolding take_cores count_free
  take_cores-length [] n o dist = ground arith
  take_cores-length (d ∷ cs) zero o dist = ground arith
  take_cores-length (d ∷ cs) (suc n) o dist = elim (Bool-cases (o d ==ℤ pos 0)) [
    | inl e ↦ rw (take_cores-free d cs n o e) (
        ground (
          arith,
          take_cores-length cs n (update o d id) dist.1,
          count_free-update o d id cs dist.0,
        ))
    | inr e ↦
        rw (take_cores-owned d cs n o e) (ground (arith, take_cores-length cs (suc n) o dist.1))
  ]

  pub take_cores-outside :
      (cs : List ℕ) (n : ℕ) (o : ℕ → ℤ)
      → Distinct cs
      → (c : ℕ) → mem c cs ≡ false
      → (take_cores cs n id o).0 c ≡ o c
  take_cores-outside cs n o dist c m =
      take_cores-owner cs n o dist c ∙ rw (take_cores-mem cs n o c m)

  pub take_cores-inside :
      (cs : List ℕ) (n : ℕ) (o : ℕ → ℤ) (c : ℕ)
      → mem c (take_cores cs n id o).1 ≡ true
      → mem c cs ≡ true
  take_cores-inside cs n o c m = elim (Bool-cases (mem c cs)) [
    | inl e ↦ e
    | inr e ↦ absurd (false≢true (sym (take_cores-mem cs n o c e) ∙ m))
  ]
