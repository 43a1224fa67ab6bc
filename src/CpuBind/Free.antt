-- ===== src/CpuBind/Free.antt =====
-- cpu_bind.c cpu_bind_free: the release of an allocation.
use task_spooler_plus.Base.{
  ℕ, zero, suc, ℤ, pos, List, [], ◌∷◌, some, true, if◌then◌else◌, ◌≡◌, refl, ◌≢◌, ◌∙◌, ap, sym,
  All-get, All-remove_at, get_elem?, remove_at, Bool-cases, inl, inr, arith,
}
use task_spooler_plus.Outcome.{ok}
use task_spooler_plus.CpuBind.{Topology, CpuAlloc, Binding}
use task_spooler_plus.CpuBind.Claim.{release_cpus, cpu_bind_free}
use task_spooler_plus.CpuBind.Took.{mem, Distinct, mem_of_All, All-of_mem}
use task_spooler_plus.CpuBind.Counts.{IsTopology}
use task_spooler_plus.CpuBind.Owners.{owner_in, Separate, IsConsistent}
use task_spooler_plus.CpuBind.Release.{release_cpus-Changed}

get-busy :
    (ls : List CpuAlloc) (k : ℕ) (a : CpuAlloc)
    → Separate ls
    → get_elem? ls k ≡ some a
    → a.jobid ≢ pos 0
get-busy [] k a s e = cc
get-busy (x ∷ ls) zero a s e = let q : x ≡ a = cc in rw (← q) (s.0)
get-busy (x ∷ ls) (suc k) a s e = get-busy ls k a s.3 e

get-Distinct :
    (ls : List CpuAlloc) (k : ℕ) (a : CpuAlloc)
    → Separate ls
    → get_elem? ls k ≡ some a
    → Distinct a.os_cpus
get-Distinct [] k a s e = cc
get-Distinct (x ∷ ls) zero a s e = let q : x ≡ a = cc in rw (← q) (s.1)
get-Distinct (x ∷ ls) (suc k) a s e = get-Distinct ls k a s.3 e

-- The processors of an allocation of the list belong to its job.
pub owner_in-get :
    (ls : List CpuAlloc) (k : ℕ) (a : CpuAlloc) (c : ℕ)
    → Separate ls
    → get_elem? ls k ≡ some a
    → mem c a.os_cpus ≡ true
    → owner_in ls c ≡ a.jobid
unfolding owner_in
owner_in-get [] k a c s e m = cc
owner_in-get (x ∷ ls) zero a c s e m = let q : x ≡ a = cc in rw q (rw m)
owner_in-get (x ∷ ls) (suc k) a c s e m = elim (Bool-cases (mem c x.os_cpus)) [
  | inl i ↦ absurd (
      get-busy ls k a s.3 e
        (sym (owner_in-get ls k a c s.3 e m) ∙ All-of_mem (λ y. owner_in ls y ≡ pos 0) _ c s.2 i))
  | inr i ↦ rw i (owner_in-get ls k a c s.3 e m)
]

-- The other allocations without it.
owner_in-remove_at :
    (ls : List CpuAlloc) (k : ℕ) (a : CpuAlloc) (c : ℕ)
    → Separate ls
    → get_elem? ls k ≡ some a
    → owner_in (remove_at ls k) c ≡ (if mem c a.os_cpus then pos 0 else owner_in ls c)
unfolding owner_in
owner_in-remove_at [] k a c s e = cc
owner_in-remove_at (x ∷ ls) zero a c s e =
    let q : x ≡ a = cc in
    elim (Bool-cases (mem c x.os_cpus)) [
      | inl i ↦ rw (← q) (rw i (All-of_mem (λ y. owner_in ls y ≡ pos 0) _ c s.2 i))
      | inr i ↦ rw (← q) (rw i)
    ]
owner_in-remove_at (x ∷ ls) (suc k) a c s e = elim (Bool-cases (mem c x.os_cpus)) [
  | inl i ↦ elim (Bool-cases (mem c a.os_cpus)) [
    | inl m ↦ absurd (
        get-busy ls k a s.3 e
          (sym (owner_in-get ls k a c s.3 e m) ∙ All-of_mem (λ y. owner_in ls y ≡ pos 0) _ c s.2 i))
    | inr m ↦ rw i (rw m)
  ]
  | inr i ↦ rw i (owner_in-remove_at ls k a c s.3 e)
]

Separate-remove_at :
    (ls : List CpuAlloc) (k : ℕ) (a : CpuAlloc)
    → Separate ls
    → get_elem? ls k ≡ some a
    → Separate (remove_at ls k)
Separate-remove_at [] k a s e = cc
Separate-remove_at (x ∷ ls) zero a s e = s.3
Separate-remove_at (x ∷ ls) (suc k) a s e = (
  s.0,
  s.1,
  mem_of_All _ x.os_cpus (λ c m.
      let r = owner_in-remove_at ls k a c s.3 e in
      ground (arith, r, All-of_mem (λ y. owner_in ls y ≡ pos 0) _ c s.2 m)),
  Separate-remove_at ls k a s.3 e,
)

module _ {t : Topology} (top : IsTopology t) where
  cpu_bind_free-ok :
      (b b' : Binding) (k : ℕ) (a : CpuAlloc)
      → get_elem? b.cpu_allocs k ≡ some a
      → release_cpus t a.os_cpus b ≡ ok b'
      → cpu_bind_free t k b ≡ ok (record b' { cpu_allocs = remove_at b'.cpu_allocs k })
  unfolding cpu_bind_free
  cpu_bind_free-ok b b' k a e r = rw (e, cpu_bind_free) (rw r)

  -- On a consistent allocator, cpu_bind_free of an allocation of the list ends without a fault: it
  -- takes the allocation off the list, makes just its processors free, and leaves the allocator
  -- consistent.
  pub cpu_bind_free-IsConsistent :
      (b : Binding) (k : ℕ) (a : CpuAlloc)
      → IsConsistent t b
      → get_elem? b.cpu_allocs k ≡ some a
      → (b' : Binding) × (cpu_bind_free t k b ≡ ok b')
        × IsConsistent t b'
        × (b'.cpu_allocs ≡ remove_at b.cpu_allocs k)
        × ((c : ℕ) → b'.cpu_owner c ≡ (if mem c a.os_cpus then pos 0 else b.cpu_owner c))
  cpu_bind_free-IsConsistent b k a c e =
      let busy = get-busy b.cpu_allocs k a c.separate e in
      let (b', r, ch) =
        release_cpus-Changed top a.os_cpus b c.homes c.is_counted
          (get-Distinct b.cpu_allocs k a c.separate e) (All-get _ b.cpu_allocs k a c.placed e)
          (mem_of_All _ a.os_cpus
            λ x m. rw (c.owners x) (rw (owner_in-get b.cpu_allocs k a x c.separate e m) busy)) in
      (
        record b' { cpu_allocs = remove_at b.cpu_allocs k },
        cpu_bind_free-ok b b' k a e r
            ∙ ap (λ ls. ok (record b' { cpu_allocs = remove_at ls k })) ch.same_allocs,
        record {
          is_counted = ch.is_counted;
          owners = λ x. ground (
            arith,
            ch.owner_is x,
            owner_in-remove_at b.cpu_allocs k a x c.separate e,
            c.owners x,
          );
          separate = Separate-remove_at b.cpu_allocs k a c.separate e;
          placed = All-remove_at _ b.cpu_allocs k c.placed;
          homes = λ g x lt m. ap (λ (f : ℕ → ℤ). f x) ch.same_groups ∙ c.homes g x lt m;
        },
        refl,
        ch.owner_is,
      )
