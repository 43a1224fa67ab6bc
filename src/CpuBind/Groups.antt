-- ===== src/CpuBind/Groups.antt =====
-- cpu_bind.c alloc_from_groups: the loop ends with all that was asked for, where the groups have it.
use task_spooler_plus.Base.{
  ℕ, zero, suc, pos, ◌+◌, ◌-◌, ◌≤◌, ◌<◌, ◌≤ℤ◌, ◌<ℤ◌, List, [], ◌∷◌, ◌++◌, some, true, ◌≡◌, refl,
  ◌≢◌, ◌∙◌, ap, sym, All, length-append, All-append, append_assoc, append-nil, arith, parts,
  Option-cases, inl, inr, subst,
}
use task_spooler_plus.CpuBind.{
  Topology, CpuAlloc, Binding, choose_group, take_from_group, alloc_loop, alloc_from_groups,
}
use task_spooler_plus.CpuBind.Took.{mem, Distinct, Took, All-of_mem}
use task_spooler_plus.CpuBind.Take.{take_cores-outside, take_cores-count, take_cores-length}
use task_spooler_plus.CpuBind.Counts.{IsTopology, Counted, free_at, free_at-moved}
use task_spooler_plus.CpuBind.Choice.{IsChoice, choose_group-IsChoice}
use task_spooler_plus.CpuBind.Alloc.{Took-trans, Took-nil, Allotted, take_from_group-Allotted}

module _ {t : Topology} where
  pub Allotted-nil : (b : Binding) (a : CpuAlloc) → Counted t b → Allotted t b a 0 b a
  Allotted-nil b a ok = record {
    taken = [];
    is_counted = ok;
    took = Took-nil _ _;
    is_length = refl;
    are_placed = tt;
    only_counts = refl;
    only_cpus = ap (λ cs. record a { os_cpus = cs }) (sym (append-nil a.os_cpus));
  }

  pub same_job :
      {b b' : Binding} {a a' : CpuAlloc} {n : ℕ} → Allotted t b a n b' a' → a'.jobid ≡ a.jobid
  same_job p = ap (λ (x : CpuAlloc). x.jobid) p.only_cpus

  pub Allotted-trans :
      {b b1 b2 : Binding} {a a1 a2 : CpuAlloc} {n m : ℕ}
      → a.jobid ≢ pos 0
      → Allotted t b a n b1 a1
      → Allotted t b1 a1 m b2 a2
      → Allotted t b a (n + m) b2 a2
  Allotted-trans {b} {b1} {b2} {a} {a1} {a2} busy p q = record {
    taken = p.taken ++ q.taken;
    is_counted = q.is_counted;
    took =
        Took-trans p.taken q.taken busy p.took
          (subst (λ id. Took b1.cpu_owner b2.cpu_owner id q.taken) (same_job p) q.took);
    is_length = omega (arith, length-append p.taken q.taken, p.is_length, q.is_length);
    are_placed = All-append _ p.taken q.taken p.are_placed q.are_placed;
    only_counts = cc (p.only_counts, q.only_counts);
    only_cpus = cc (append_assoc a.os_cpus p.taken q.taken);
  }

  free_at-none :
      (b : Binding) (gs : List ℕ)
      → Counted t b
      → All (λ g. g < t.num_groups) gs
      → All (λ g. b.group_free g ≤ℤ pos 0) gs
      → free_at t b.cpu_owner gs ≡ 0
  unfolding free_at
  free_at-none b [] ok lt h = refl
  free_at-none b (g ∷ gs) ok lt h =
      omega (arith, parts (ok.group_count g lt.0), h.0, free_at-none b gs ok lt.1 h.1)

-- One round.
alloc_loop-some :
    (t : Topology) (gs : List ℕ) (fuel n g : ℕ) (b : Binding) (a : CpuAlloc)
    → choose_group b.group_free gs (suc n) ≡ some g
    → alloc_loop t gs (suc fuel) (suc n) b a
      ≡ (let r = take_from_group t b g (suc n) a in alloc_loop t gs fuel (suc n - r.2) (r.0) (r.1))
unfolding alloc_loop
alloc_loop-some t gs fuel n g b a e = rw (e, alloc_loop)

module _ {t : Topology} (top : IsTopology t) (gs : List ℕ)
    (in_range : All (λ g. g < t.num_groups) gs) (distinct : Distinct gs) where
  -- What is taken from a group of the list is missing in the list.
  free_at-take :
      (b : Binding) (g n : ℕ) (a : CpuAlloc)
      → mem g gs ≡ true
      → a.jobid ≢ pos 0
      → free_at t (take_from_group t b g n a).0.cpu_owner gs + (take_from_group t b g n a).2
        ≡ free_at t b.cpu_owner gs
  unfolding take_from_group
  free_at-take b g n a m busy =
      let lt = All-of_mem _ gs g in_range m in
      let d = top.cpus_distinct g lt in
      omega (
        arith,
        take_cores-count a.jobid busy (t.groups g).os_cpus n b.cpu_owner d,
        free_at-moved top lt b.cpu_owner _
            (take_cores-outside a.jobid busy (t.groups g).os_cpus n b.cpu_owner d) gs in_range
            distinct m,
      )

  -- A round takes at least one processor and no more than are missing.
  taken_bounds :
      (b : Binding) (g n : ℕ) (a : CpuAlloc)
      → g < t.num_groups
      → a.jobid ≢ pos 0
      → Counted t b
      → pos 0 <ℤ b.group_free g
      → (0 < (take_from_group t b g (suc n) a).2) × ((take_from_group t b g (suc n) a).2 ≤ suc n)
  unfolding take_from_group
  taken_bounds b g n a lt busy ok h = ground (
    arith,
    ok.group_count g lt,
    take_cores-length a.jobid busy (t.groups g).os_cpus (suc n) b.cpu_owner
        (top.cpus_distinct g lt),
  )

  pub alloc_loop-Allotted :
      (fuel n : ℕ) (b : Binding) (a : CpuAlloc)
      → n < fuel
      → a.jobid ≢ pos 0
      → Counted t b
      → n ≤ free_at t b.cpu_owner gs
      → (b' : Binding) × (a' : CpuAlloc) × (alloc_loop t gs fuel n b a ≡ some (b', a', 0))
        × Allotted t b a n b' a'
  unfolding alloc_loop
  alloc_loop-Allotted zero n b a f busy ok h = elim f [ ]
  alloc_loop-Allotted (suc fuel) zero b a f busy ok h = (b, a, refl, Allotted-nil b a ok)
  alloc_loop-Allotted (suc fuel) (suc n) b a f busy ok h =
      elim (Option-cases (choose_group b.group_free gs (suc n))) [
        | inl e ↦
            let z = free_at-none b gs ok in_range (
              subst (IsChoice b.group_free gs (suc n)) e
                (choose_group-IsChoice b.group_free gs n)) in
            absurd (omega (arith, z, h))
        | inr (g, e) ↦
            let c =
              subst (IsChoice b.group_free gs (suc n)) e
                (choose_group-IsChoice b.group_free gs n) in
            let lt = All-of_mem _ gs g in_range (c.0) in
            let p = take_from_group-Allotted top b g (suc n) a lt busy ok in
            let k = taken_bounds b g n a lt busy ok (c.1) in
            let r = take_from_group t b g (suc n) a in
            let (b', a', eq, q) =
              alloc_loop-Allotted fuel (suc n - r.2) (r.0) (r.1) (omega (arith, k.0, f))
                (rw (same_job p) busy) p.is_counted
                (omega (arith, free_at-take b g (suc n) a (c.0) busy, h)) in
            (
              b',
              a',
              alloc_loop-some t gs fuel n g b a e ∙ eq,
              subst (λ m. Allotted t b a m b' a') (omega (arith, k.1)) (Allotted-trans busy p q),
            )
      ]

  -- The groups have enough: alloc_from_groups ends with `n` processors more, and no error.
  pub alloc_from_groups-Allotted :
      (n : ℕ) (b : Binding) (a : CpuAlloc)
      → a.jobid ≢ pos 0
      → Counted t b
      → n ≤ free_at t b.cpu_owner gs
      → (b' : Binding) × (a' : CpuAlloc) × (alloc_from_groups t n gs b a ≡ some (b', a'))
        × Allotted t b a n b' a'
  unfolding alloc_from_groups
  alloc_from_groups-Allotted n b a busy ok h =
      let (b', a', e, p) = alloc_loop-Allotted (suc n) n b a (omega arith) busy ok h in
      (b', a', rw e, p)
