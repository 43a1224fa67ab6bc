-- ===== src/CpuBind/Sorting.antt =====
-- cpu_bind.c: the two calls of qsort, and the list of all nodes.
use task_spooler_plus.Base.{
  ℕ, zero, suc, ℤ, ◌≤◌, ◌+ℤ◌, leb, ltb, leb_ℤ, ◌==◌, List, [], ◌∷◌, false, ◌||◌, ◌≡◌, refl, All,
  length, sum, Bool-cases, inl, inr, arith, int_laws, parts,
}
use task_spooler_plus.CpuBind.{insert_cpu, sort_cpus, insert_node, sort_nodes, up_to}
use task_spooler_plus.CpuBind.Took.{mem, Distinct, mem-append, Distinct-append, mem_of_All}

abbrev pub IsSorted : List ℕ → Type 0
IsSorted [] = Unit
IsSorted (c ∷ cs) = All (λ d. c ≤ d) cs × IsSorted cs

mem-insert_cpu : (k c : ℕ) (cs : List ℕ) → mem k (insert_cpu c cs) ≡ ((c == k) || mem k cs)
unfolding mem insert_cpu
mem-insert_cpu k c [] = refl
mem-insert_cpu k c (d ∷ cs) = ground (arith, mem-insert_cpu k c cs)

pub mem-sort_cpus : (k : ℕ) (cs : List ℕ) → mem k (sort_cpus cs) ≡ mem k cs
unfolding mem sort_cpus
mem-sort_cpus k [] = refl
mem-sort_cpus k (c ∷ cs) = ground (arith, mem-insert_cpu k c (sort_cpus cs), mem-sort_cpus k cs)

Distinct-insert_cpu :
    (c : ℕ) (cs : List ℕ) → mem c cs ≡ false → Distinct cs → Distinct (insert_cpu c cs)
unfolding mem insert_cpu
Distinct-insert_cpu c [] m d = (refl, tt)
Distinct-insert_cpu c (x ∷ cs) m d = elim (Bool-cases (leb c x)) [
  | inl e ↦ rw e (m, d)
  | inr e ↦ rw e (
    ground (arith, mem-insert_cpu x c cs, m, d.0),
    Distinct-insert_cpu c cs (ground (arith, m)) d.1,
  )
]

pub Distinct-sort_cpus : (cs : List ℕ) → Distinct cs → Distinct (sort_cpus cs)
unfolding sort_cpus
Distinct-sort_cpus [] d = tt
Distinct-sort_cpus (c ∷ cs) d =
    Distinct-insert_cpu c _ (ground (arith, mem-sort_cpus c cs, d.0)) (Distinct-sort_cpus cs d.1)

length-insert_cpu : (c : ℕ) (cs : List ℕ) → length (insert_cpu c cs) ≡ suc (length cs)
unfolding insert_cpu
length-insert_cpu c [] = refl
length-insert_cpu c (d ∷ cs) = ground (arith, length-insert_cpu c cs)

pub length-sort_cpus : (cs : List ℕ) → length (sort_cpus cs) ≡ length cs
unfolding sort_cpus
length-sort_cpus [] = refl
length-sort_cpus (c ∷ cs) = omega (arith, length-insert_cpu c (sort_cpus cs), length-sort_cpus cs)

All-insert_cpu {ℓ} :
    (P : ℕ → Type ℓ) (c : ℕ) (cs : List ℕ) → P c → All P cs → All P (insert_cpu c cs)
unfolding insert_cpu
All-insert_cpu P c [] p h = (p, tt)
All-insert_cpu P c (d ∷ cs) p h = elim (Bool-cases (leb c d)) [
  | inl e ↦ rw e (p, h)
  | inr e ↦ rw e (h.0, All-insert_cpu P c cs p h.1)
]

pub All-sort_cpus {ℓ} : (P : ℕ → Type ℓ) (cs : List ℕ) → All P cs → All P (sort_cpus cs)
unfolding sort_cpus
All-sort_cpus P [] h = tt
All-sort_cpus P (c ∷ cs) h = All-insert_cpu P c _ h.0 (All-sort_cpus P cs h.1)

All-le : (c d : ℕ) (cs : List ℕ) → c ≤ d → All (λ x. d ≤ x) cs → All (λ x. c ≤ x) cs
All-le c d [] h a = tt
All-le c d (x ∷ cs) h a = (omega (arith, h, a.0), All-le c d cs h a.1)

insert_cpu-IsSorted : (c : ℕ) (cs : List ℕ) → IsSorted cs → IsSorted (insert_cpu c cs)
unfolding insert_cpu
insert_cpu-IsSorted c [] h = (tt, tt)
insert_cpu-IsSorted c (d ∷ cs) h = elim (Bool-cases (leb c d)) [
  | inl e ↦ rw e ((ground arith, All-le c d cs (ground arith) h.0), h)
  | inr e ↦ rw e (All-insert_cpu _ c cs (ground arith) h.0, insert_cpu-IsSorted c cs h.1)
]

pub sort_cpus-IsSorted : (cs : List ℕ) → IsSorted (sort_cpus cs)
unfolding sort_cpus
sort_cpus-IsSorted [] = tt
sort_cpus-IsSorted (c ∷ cs) = insert_cpu-IsSorted c _ (sort_cpus-IsSorted cs)

module _ (free : ℕ → ℤ) where
  mem-insert_node : (k i : ℕ) (js : List ℕ) → mem k (insert_node free i js) ≡ ((i == k) || mem k js)
  unfolding mem insert_node
  mem-insert_node k i [] = refl
  mem-insert_node k i (j ∷ js) = ground (arith, mem-insert_node k i js)

  pub mem-sort_nodes : (k : ℕ) (js : List ℕ) → mem k (sort_nodes free js) ≡ mem k js
  unfolding mem sort_nodes
  mem-sort_nodes k [] = refl
  mem-sort_nodes k (i ∷ js) =
      ground (arith, mem-insert_node k i (sort_nodes free js), mem-sort_nodes k js)

  Distinct-insert_node :
      (i : ℕ) (js : List ℕ) → mem i js ≡ false → Distinct js → Distinct (insert_node free i js)
  unfolding mem insert_node
  Distinct-insert_node i [] m d = (refl, tt)
  Distinct-insert_node i (j ∷ js) m d = elim (Bool-cases (leb_ℤ (free j) (free i))) [
    | inl e ↦ rw e (m, d)
    | inr e ↦ rw e (
      ground (arith, mem-insert_node j i js, m, d.0),
      Distinct-insert_node i js (ground (arith, m)) d.1,
    )
  ]

  pub Distinct-sort_nodes : (js : List ℕ) → Distinct js → Distinct (sort_nodes free js)
  unfolding sort_nodes
  Distinct-sort_nodes [] d = tt
  Distinct-sort_nodes (i ∷ js) d =
      Distinct-insert_node i _ (ground (arith, mem-sort_nodes i js, d.0))
        (Distinct-sort_nodes js d.1)

  sum-insert_node :
      (w : ℕ → ℤ) (i : ℕ) (js : List ℕ) → sum w (insert_node free i js) ≡ w i +ℤ sum w js
  unfolding sum insert_node
  sum-insert_node w i [] = refl
  sum-insert_node w i (j ∷ js) = elim (Bool-cases (leb_ℤ (free j) (free i))) [
    | inl e ↦ rw e
    | inr e ↦ rw e (omega (int_laws, parts (sum-insert_node w i js)))
  ]

  pub sum-sort_nodes : (w : ℕ → ℤ) (js : List ℕ) → sum w (sort_nodes free js) ≡ sum w js
  unfolding sum sort_nodes
  sum-sort_nodes w [] = refl
  sum-sort_nodes w (i ∷ js) =
      omega
        (int_laws, parts (sum-insert_node w i (sort_nodes free js)), parts (sum-sort_nodes w js))

pub mem-up_to : (k n : ℕ) → mem k (up_to n) ≡ ltb k n
unfolding mem up_to
mem-up_to k zero = ground arith
mem-up_to k (suc n) = ground (arith, mem-append k (up_to n) (n ∷ []), mem-up_to k n)

pub Distinct-up_to : (n : ℕ) → Distinct (up_to n)
unfolding up_to mem
Distinct-up_to zero = tt
Distinct-up_to (suc n) =
    Distinct-append (up_to n) (n ∷ []) (Distinct-up_to n) (refl, tt)
      (mem_of_All _ _ λ c m. ground (arith, m, mem-up_to c n))
