-- ===== src/Defrag/Sort.antt =====
-- cpu_bind.c: the sort of the allocations changes nothing but their order.
use task_spooler_plus.Base.{
  ℕ, ℤ, pos, ◌+◌, ◌==ℤ◌, ◌==◌, List, [], ◌∷◌, ◌++◌, true, false, if◌then◌else◌, ◌≡◌, refl, ◌∙◌, ap,
  sym, subst, All, length, Bool-cases, inl, inr, arith,
}
use task_spooler_plus.CpuBind.{CpuAlloc}
use task_spooler_plus.CpuBind.Took.{mem, mem_of_All, All-of_mem}
use task_spooler_plus.CpuBind.Owners.{owner_in, Separate, owner_in-cons}
use task_spooler_plus.CpuBind.Conserve.{cpus_in}
use task_spooler_plus.Defrag.{comes_first, insert_alloc, sort_allocs, split_perfect}

-- The processors of a job.
unfoldable pub cpus_of : ℤ → List CpuAlloc → ℕ
cpus_of id [] = 0
cpus_of id (a ∷ ls) = (if a.jobid ==ℤ id then length a.os_cpus else 0) + cpus_of id ls

cpus_of-insert :
    (id : ℤ) (a : CpuAlloc) (ls : List CpuAlloc)
    → cpus_of id (insert_alloc a ls) ≡ cpus_of id (a ∷ ls)
unfolding cpus_of insert_alloc
cpus_of-insert id a [] = refl
cpus_of-insert id a (b ∷ ls) = elim (Bool-cases (comes_first a b)) [
  | inl e ↦ rw e
  | inr e ↦ rw e (omega (arith, cpus_of-insert id a ls))
]

pub cpus_of-sort : (id : ℤ) (ls : List CpuAlloc) → cpus_of id (sort_allocs ls) ≡ cpus_of id ls
unfolding cpus_of sort_allocs
cpus_of-sort id [] = refl
cpus_of-sort id (a ∷ ls) = omega (arith, cpus_of-insert id a (sort_allocs ls), cpus_of-sort id ls)

cpus_in-insert :
    (a : CpuAlloc) (ls : List CpuAlloc) → cpus_in (insert_alloc a ls) ≡ cpus_in (a ∷ ls)
unfolding cpus_in insert_alloc
cpus_in-insert a [] = refl
cpus_in-insert a (b ∷ ls) = elim (Bool-cases (comes_first a b)) [
  | inl e ↦ rw e
  | inr e ↦ rw e (omega (arith, cpus_in-insert a ls))
]

pub cpus_in-sort : (ls : List CpuAlloc) → cpus_in (sort_allocs ls) ≡ cpus_in ls
unfolding cpus_in sort_allocs
cpus_in-sort [] = refl
cpus_in-sort (a ∷ ls) = omega (arith, cpus_in-insert a (sort_allocs ls), cpus_in-sort ls)

All-insert_alloc {ℓ} :
    (P : CpuAlloc → Type ℓ) (a : CpuAlloc) (ls : List CpuAlloc)
    → P a
    → All P ls
    → All P (insert_alloc a ls)
unfolding insert_alloc
All-insert_alloc P a [] p h = (p, tt)
All-insert_alloc P a (b ∷ ls) p h = elim (Bool-cases (comes_first a b)) [
  | inl e ↦ rw e (p, h)
  | inr e ↦ rw e (h.0, All-insert_alloc P a ls p h.1)
]

pub All-sort_allocs {ℓ} :
    (P : CpuAlloc → Type ℓ) (ls : List CpuAlloc) → All P ls → All P (sort_allocs ls)
unfolding sort_allocs
All-sort_allocs P [] h = tt
All-sort_allocs P (a ∷ ls) h = All-insert_alloc P a _ h.0 (All-sort_allocs P ls h.1)

-- Two allocations without a common processor may stand in either order.
owner_in-swap :
    (a b : CpuAlloc) (ls : List CpuAlloc) (c : ℕ)
    → Separate (a ∷ b ∷ ls)
    → owner_in (a ∷ b ∷ ls) c ≡ owner_in (b ∷ a ∷ ls) c
unfolding owner_in
owner_in-swap a b ls c s = elim (Bool-cases (mem c a.os_cpus)) [
  | inl m ↦
      let q =
        owner_in-cons b ls c (s.3.0) (All-of_mem (λ y. owner_in (b ∷ ls) y ≡ pos 0) _ c s.2 m) in
      ground (arith, q.0, m)
  | inr m ↦ ground (arith, m)
]

Separate-swap :
    (a b : CpuAlloc) (ls : List CpuAlloc) → Separate (a ∷ b ∷ ls) → Separate (b ∷ a ∷ ls)
unfolding owner_in
Separate-swap a b ls s =
    let q = λ (c : ℕ) (m : mem c a.os_cpus ≡ true).
      owner_in-cons b ls c (s.3.0) (All-of_mem (λ y. owner_in (b ∷ ls) y ≡ pos 0) _ c s.2 m) in
    (
      s.3.0,
      s.3.1,
      mem_of_All _ b.os_cpus (λ c m. ground (
        arith,
        m,
        All-of_mem (λ y. owner_in ls y ≡ pos 0) _ c (s.3.2) m,
        λ (n : mem c a.os_cpus ≡ true). (q c n).0,
      )),
      (s.0, s.1, mem_of_All _ a.os_cpus (λ c m. (q c m).1), s.3.3),
    )

owner_in-tail :
    (b : CpuAlloc) (xs ys : List CpuAlloc) (c : ℕ)
    → owner_in xs c ≡ owner_in ys c
    → owner_in (b ∷ xs) c ≡ owner_in (b ∷ ys) c
unfolding owner_in
owner_in-tail b xs ys c e = ap (λ v. if mem c b.os_cpus then b.jobid else v) e

owner_in-insert :
    (a : CpuAlloc) (ls : List CpuAlloc) (c : ℕ)
    → Separate (a ∷ ls)
    → owner_in (insert_alloc a ls) c ≡ owner_in (a ∷ ls) c
unfolding insert_alloc
owner_in-insert a [] c s = refl
owner_in-insert a (b ∷ ls) c s = elim (Bool-cases (comes_first a b)) [
  | inl e ↦ rw e
  | inr e ↦ rw e (
      owner_in-tail b _ _ c (owner_in-insert a ls c (Separate-swap a b ls s).3)
      ∙ sym (owner_in-swap a b ls c s))
]

Separate-insert :
    (a : CpuAlloc) (ls : List CpuAlloc) → Separate (a ∷ ls) → Separate (insert_alloc a ls)
unfolding insert_alloc
Separate-insert a [] s = s
Separate-insert a (b ∷ ls) s = elim (Bool-cases (comes_first a b)) [
  | inl e ↦ rw e s
  | inr e ↦
      let z = Separate-swap a b ls s in
      rw e (
        z.0,
        z.1,
        mem_of_All _ b.os_cpus (λ c m.
            owner_in-insert a ls c z.3 ∙ All-of_mem (λ y. owner_in (a ∷ ls) y ≡ pos 0) _ c z.2 m),
        Separate-insert a ls z.3,
      )
]

-- The sort keeps the owners.
pub sort_allocs-Separate :
    (ls : List CpuAlloc)
    → Separate ls
    → Separate (sort_allocs ls) × ((c : ℕ) → owner_in (sort_allocs ls) c ≡ owner_in ls c)
unfolding sort_allocs
sort_allocs-Separate [] s = (tt, λ c. refl)
sort_allocs-Separate (a ∷ ls) s =
    let r = sort_allocs-Separate ls s.3 in
    let z : Separate (a ∷ sort_allocs ls) = (
      s.0,
      s.1,
      mem_of_All _ a.os_cpus (λ c m. r.1 c ∙ All-of_mem (λ y. owner_in ls y ≡ pos 0) _ c s.2 m),
      r.0,
    ) in
    (Separate-insert a _ z, λ c. owner_in-insert a _ c z ∙ owner_in-tail a _ _ c (r.1 c))

split_perfect-keep :
    (a : CpuAlloc) (ls : List CpuAlloc)
    → (a.quality == 0) ≡ true
    → split_perfect (a ∷ ls) ≡ (a ∷ (split_perfect ls).0, (split_perfect ls).1)
unfolding split_perfect
split_perfect-keep a ls e = rw (e, split_perfect)

split_perfect-stop :
    (a : CpuAlloc) (ls : List CpuAlloc)
    → (a.quality == 0) ≡ false
    → split_perfect (a ∷ ls) ≡ ([], a ∷ ls)
unfolding split_perfect
split_perfect-stop a ls e = rw (e, split_perfect)

pub split_perfect-append : (ls : List CpuAlloc) → (split_perfect ls).0 ++ (split_perfect ls).1 ≡ ls
unfolding split_perfect
split_perfect-append [] = refl
split_perfect-append (a ∷ ls) = elim (Bool-cases (a.quality == 0)) [
  | inl e ↦
      subst (λ (r : List CpuAlloc × List CpuAlloc). r.0 ++ r.1 ≡ a ∷ ls)
        (sym (split_perfect-keep a ls e)) (ap (λ xs. a ∷ xs) (split_perfect-append ls))
  | inr e ↦
      subst (λ (r : List CpuAlloc × List CpuAlloc). r.0 ++ r.1 ≡ a ∷ ls)
        (sym (split_perfect-stop a ls e)) refl
]
