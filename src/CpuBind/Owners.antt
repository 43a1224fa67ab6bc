-- ===== src/CpuBind/Owners.antt =====
-- cpu_bind.c: the table of owners is what the allocations say, and no two of them share a processor.
use task_spooler_plus.Base.{
  ℕ, zero, suc, ℤ, pos, ◌<◌, ◌≤ℤ◌, ltb_ℤ, List, [], ◌∷◌, some, true, false, if◌then◌else◌, ◌≡◌,
  refl, ◌≢◌, ◌∙◌, ap, sym, All, All-set, set, get_elem?, length, Bool-cases, inl, inr, arith,
}
use task_spooler_plus.Outcome.{ok}
use task_spooler_plus.CpuBind.{Topology, CpuAlloc, Binding, alloc_cpus, cpu_bind_alloc, total_free}
use task_spooler_plus.CpuBind.Took.{mem, Distinct, Took, mem_of_All, All-of_mem}
use task_spooler_plus.CpuBind.Counts.{IsTopology, Counted}
use task_spooler_plus.CpuBind.Alloc.{Placed}
use task_spooler_plus.CpuBind.Serve.{Served}
use task_spooler_plus.CpuBind.Sorting.{IsSorted}
use task_spooler_plus.CpuBind.Result.{alloc_cpus-Served}

-- The job that has a processor, by the list of allocations.
unfoldable pub owner_in : List CpuAlloc → ℕ → ℤ
owner_in [] c = pos 0
owner_in (a ∷ ls) c = if mem c a.os_cpus then a.jobid else owner_in ls c

-- No processor is in two allocations or twice in one.
abbrev pub Separate : List CpuAlloc → Type 0
Separate [] = Unit
Separate (a ∷ ls) =
    (a.jobid ≢ pos 0)
    × Distinct a.os_cpus
    × All (λ c. owner_in ls c ≡ pos 0) a.os_cpus
    × Separate ls

pub record IsConsistent (t : Topology) (b : Binding) : Type 0 where
  pub is_counted : Counted t b
  pub owners : (c : ℕ) → b.cpu_owner c ≡ owner_in b.cpu_allocs c
  pub separate : Separate b.cpu_allocs
  pub placed : All (λ (a : CpuAlloc). All (Placed t) a.os_cpus) b.cpu_allocs
  pub homes :
      (g c : ℕ) → g < t.num_groups → mem c (t.groups g).os_cpus ≡ true → b.cpu_to_group c ≡ pos g

-- A free processor is in no allocation.
pub owner_in-cons :
    (a : CpuAlloc) (ls : List CpuAlloc) (c : ℕ)
    → a.jobid ≢ pos 0
    → owner_in (a ∷ ls) c ≡ pos 0
    → (mem c a.os_cpus ≡ false) × (owner_in ls c ≡ pos 0)
unfolding owner_in
owner_in-cons a ls c busy h = elim (Bool-cases (mem c a.os_cpus)) [
  | inl e ↦ absurd (busy (ground (arith, h, e)))
  | inr e ↦ (e, ground (arith, h, e))
]

-- An allocation without processors is replaced by one with free processors.
pub owner_in-set :
    (ls : List CpuAlloc) (k : ℕ) (a a' : CpuAlloc) (c : ℕ)
    → Separate ls
    → get_elem? ls k ≡ some a
    → a.os_cpus ≡ []
    → All (λ x. owner_in ls x ≡ pos 0) a'.os_cpus
    → owner_in (set ls k a') c ≡ (if mem c a'.os_cpus then a'.jobid else owner_in ls c)
unfolding owner_in mem
owner_in-set [] k a a' c s e z f = cc
owner_in-set (x ∷ ls) zero a a' c s e z f = let q : x.os_cpus ≡ [] = cc in rw q
owner_in-set (x ∷ ls) (suc k) a a' c s e z f =
    let g =
      mem_of_All _ a'.os_cpus λ d m.
        (owner_in-cons x ls d s.0 (All-of_mem (λ y. owner_in (x ∷ ls) y ≡ pos 0) _ d f m)).1 in
    elim (Bool-cases (mem c a'.os_cpus)) [
      | inl m ↦ ground (
        arith,
        owner_in-set ls k a a' c s.3 e z g,
        m,
        (owner_in-cons x ls c s.0 (All-of_mem (λ y. owner_in (x ∷ ls) y ≡ pos 0) _ c f m)).0,
      )
      | inr m ↦ ground (arith, owner_in-set ls k a a' c s.3 e z g, m)
    ]

pub Separate-set :
    (ls : List CpuAlloc) (k : ℕ) (a a' : CpuAlloc)
    → Separate ls
    → get_elem? ls k ≡ some a
    → a.os_cpus ≡ []
    → All (λ x. owner_in ls x ≡ pos 0) a'.os_cpus
    → a'.jobid ≢ pos 0
    → Distinct a'.os_cpus
    → Separate (set ls k a')
unfolding owner_in mem
Separate-set [] k a a' s e z f b d = tt
Separate-set (x ∷ ls) zero a a' s e z f b d = (
  b,
  d,
  mem_of_All _ _
      (λ c m. (owner_in-cons x ls c s.0 (All-of_mem (λ y. owner_in (x ∷ ls) y ≡ pos 0) _ c f m)).1),
  s.3,
)
Separate-set (x ∷ ls) (suc k) a a' s e z f b d =
    let g =
      mem_of_All _ a'.os_cpus λ d m.
        (owner_in-cons x ls d s.0 (All-of_mem (λ y. owner_in (x ∷ ls) y ≡ pos 0) _ d f m)).1 in
    (
      s.0,
      s.1,
      mem_of_All _ x.os_cpus (λ c m.
          owner_in-set ls k a a' c s.3 e z g
          ∙ ground (
            arith,
            All-of_mem (λ y. owner_in ls y ≡ pos 0) _ c s.2 m,
            m,
            λ (q : mem c a'.os_cpus ≡ true).
                (owner_in-cons x ls c s.0
                  (All-of_mem (λ y. owner_in (x ∷ ls) y ≡ pos 0) _ c f q)).0,
          )),
      Separate-set ls k a a' s.3 e z g b d,
    )

module _ {t : Topology} (top : IsTopology t) where
  cpu_bind_alloc-some :
      (b b' : Binding) (k n : ℕ) (a a' : CpuAlloc)
      → get_elem? b.cpu_allocs k ≡ some a
      → alloc_cpus t (pos n) b a ≡ some (b', a')
      → pos (length a'.os_cpus) ≤ℤ a'.slots
      → cpu_bind_alloc t b k (pos n) ≡ ok (some (record b' { cpu_allocs = set b'.cpu_allocs k a' }))
  unfolding cpu_bind_alloc
  cpu_bind_alloc-some b b' k n a a' e q l =
      let room : ltb_ℤ a'.slots (pos (length a'.os_cpus)) ≡ false = ground arith in
      rw (e, cpu_bind_alloc) (rw q (rw room refl))

  -- The allocation is written back.
  pub Served-IsConsistent :
      (b b' : Binding) (k n : ℕ) (a a' : CpuAlloc)
      → IsConsistent t b
      → get_elem? b.cpu_allocs k ≡ some a
      → a.os_cpus ≡ []
      → a.jobid ≢ pos 0
      → Served t b a n b' a'
      → IsConsistent t (record b' { cpu_allocs = set b.cpu_allocs k a' })
  Served-IsConsistent b b' k n a a' c e empty busy s =
      let free =
        mem_of_All (λ x. owner_in b.cpu_allocs x ≡ pos 0) a'.os_cpus
          λ x m.
            sym (c.owners x) ∙ All-of_mem (λ y. b.cpu_owner y ≡ pos 0) _ x s.took.were_free m in
      record {
        is_counted = s.is_counted;
        owners = λ x. ground (
          arith,
          s.took.owner_is x,
          owner_in-set b.cpu_allocs k a a' x c.separate e empty free,
          c.owners x,
          s.same_job,
        );
        separate =
            Separate-set b.cpu_allocs k a a' c.separate e empty free (rw s.same_job busy)
              s.took.are_distinct;
        placed = All-set _ b.cpu_allocs k a' c.placed s.are_placed;
        homes = λ g x lt m. ap (λ (y : Binding). y.cpu_to_group x) s.only_counts ∙ c.homes g x lt m;
      }

  -- On a consistent allocator that is on, for an allocation without processors of a job that owns
  -- none, when the nodes count as many free processors as are asked for and the allocation has
  -- place for them, cpu_bind_alloc ends and writes none past the end of the allocation: the
  -- allocation gets exactly so many, which are distinct, in order and were free; they belong to
  -- its job now and no other owner changes, the other allocations stay, its mark of an error stays
  -- as it was, and the allocator is consistent again.
  pub cpu_bind_alloc-IsConsistent :
      (b : Binding) (k n : ℕ) (a : CpuAlloc)
      → IsConsistent t b
      → get_elem? b.cpu_allocs k ≡ some a
      → a.os_cpus ≡ []
      → a.jobid ≢ pos 0
      → ((c : ℕ) → c < t.max_os_cpu → b.cpu_owner c ≢ a.jobid)
      → b.disabled ≡ false
      → 0 < n
      → pos n ≤ℤ total_free t b
      → pos n ≤ℤ a.slots
      → (b' : Binding) × (a' : CpuAlloc) × (cpu_bind_alloc t b k (pos n) ≡ ok (some b'))
        × IsConsistent t b'
        × (b'.cpu_allocs ≡ set b.cpu_allocs k a')
        × Took b.cpu_owner b'.cpu_owner a.jobid a'.os_cpus
        × (length a'.os_cpus ≡ n)
        × IsSorted a'.os_cpus
        × (a'.jobid ≡ a.jobid)
        × (a'.slots ≡ a.slots)
        × (a'.error ≡ a.error)
  cpu_bind_alloc-IsConsistent b k n a c e empty busy none_yet on p h fits =
      let (b', a', q, s, same_error) =
        alloc_cpus-Served top n b a c.is_counted on busy none_yet p h in
      let same = ap (λ (x : Binding). x.cpu_allocs) s.only_counts in
      (
        record b' { cpu_allocs = set b.cpu_allocs k a' },
        a',
        cpu_bind_alloc-some b b' k n a a' e q (rw s.is_length (rw s.same_slots fits))
            ∙ ap (λ ls. ok (some (record b' { cpu_allocs = set ls k a' }))) same,
        Served-IsConsistent b b' k n a a' c e empty busy s,
        refl,
        s.took,
        s.is_length,
        s.is_sorted,
        s.same_job,
        s.same_slots,
        same_error,
      )
