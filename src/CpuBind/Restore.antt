-- ===== src/CpuBind/Restore.antt =====
-- cpu_bind.c cpu_bind_init and cpu_bind_claim: the start of the allocator, and what it takes over after
-- a restart.
use task_spooler_plus.Base.{
  ℕ, ℤ, pos, negsuc, ◌<◌, ◌+ℤ◌, ◌==◌, ◌==ℤ◌, ==ℤ_iff, ltb_ℤ, List, [], ◌∷◌, ◌++◌, some, true, false,
  if◌then◌else◌, ◌≡◌, refl, ◌≢◌, ◌∙◌, ap, sym, All, All-append, length, Bool-cases, inl, inr, arith,
  int_laws,
}
use task_spooler_plus.CpuBind.{
  Topology, CpuAlloc, Binding, update, up_to, sort_cpus, new_alloc, cpu_bind_alloc_init,
}
use task_spooler_plus.CpuBind.Claim.{
  enter_group, enter_groups, num_cores, cpu_bind_init, add_free, take_over, claimed, cpu_bind_claim,
}
use task_spooler_plus.CpuBind.Took.{mem, Distinct, count_free, ==_iff, mem_of_All, All-of_mem}
use task_spooler_plus.CpuBind.Counts.{IsTopology, Counted, free_at}
use task_spooler_plus.CpuBind.Alloc.{Placed}
use task_spooler_plus.CpuBind.Owners.{owner_in, Separate, IsConsistent, owner_in-cons}
use task_spooler_plus.CpuBind.Release.{
  Homes, Changed, Changed-cons, add_free-Homes, add_free-Counted,
}
use task_spooler_plus.CpuBind.Sorting.{mem-sort_cpus, Distinct-sort_cpus, All-sort_cpus, mem-up_to}

enter_group_lem :
    (cs : List ℕ) (g : ℕ) (home : ℕ → ℤ) (c : ℕ)
    → enter_group cs g home c ≡ (if mem c cs then pos g else home c)
unfolding enter_group mem
enter_group_lem [] g home c = refl
enter_group_lem (x ∷ cs) g home c =
    ground (arith, enter_group_lem cs g (update home x (pos g)) c, ==_iff x c)

owner_in-append :
    (ls : List CpuAlloc) (a : CpuAlloc) (c : ℕ)
    → Separate ls
    → All (λ x. owner_in ls x ≡ pos 0) a.os_cpus
    → owner_in (ls ++ a ∷ []) c ≡ (if mem c a.os_cpus then a.jobid else owner_in ls c)
unfolding owner_in
owner_in-append [] a c s f = refl
owner_in-append (x ∷ ls) a c s f =
    let g =
      mem_of_All _ a.os_cpus λ d m.
        (owner_in-cons x ls d s.0 (All-of_mem (λ y. owner_in (x ∷ ls) y ≡ pos 0) _ d f m)).1 in
    elim (Bool-cases (mem c a.os_cpus)) [
      | inl m ↦ ground (
        arith,
        owner_in-append ls a c s.3 g,
        m,
        (owner_in-cons x ls c s.0 (All-of_mem (λ y. owner_in (x ∷ ls) y ≡ pos 0) _ c f m)).0,
      )
      | inr m ↦ ground (arith, owner_in-append ls a c s.3 g, m)
    ]

Separate-append :
    (ls : List CpuAlloc) (a : CpuAlloc)
    → Separate ls
    → All (λ x. owner_in ls x ≡ pos 0) a.os_cpus
    → a.jobid ≢ pos 0
    → Distinct a.os_cpus
    → Separate (ls ++ a ∷ [])
unfolding owner_in
Separate-append [] a s f b d = (b, d, mem_of_All _ _ (λ c m. refl), tt)
Separate-append (x ∷ ls) a s f b d =
    let g =
      mem_of_All _ a.os_cpus λ d m.
        (owner_in-cons x ls d s.0 (All-of_mem (λ y. owner_in (x ∷ ls) y ≡ pos 0) _ d f m)).1 in
    (
      s.0,
      s.1,
      mem_of_All _ x.os_cpus (λ c m.
          owner_in-append ls a c s.3 g
          ∙ ground (
            arith,
            All-of_mem (λ y. owner_in ls y ≡ pos 0) _ c s.2 m,
            m,
            λ (q : mem c a.os_cpus ≡ true).
                (owner_in-cons x ls c s.0
                  (All-of_mem (λ y. owner_in (x ∷ ls) y ≡ pos 0) _ c f q)).0,
          )),
      Separate-append ls a s.3 g b d,
    )

module _ {t : Topology} (top : IsTopology t) where
  enter_groups_lem :
      (gs : List ℕ) (home : ℕ → ℤ) (g c : ℕ)
      → All (λ h. h < t.num_groups) gs
      → g < t.num_groups
      → mem c (t.groups g).os_cpus ≡ true
      → enter_groups t gs home c ≡ (if mem g gs then pos g else home c)
  unfolding enter_groups mem
  enter_groups_lem [] home g c a lt m = refl
  enter_groups_lem (h ∷ gs) home g c a lt m =
      let r = enter_groups_lem gs (enter_group (t.groups h).os_cpus h home) g c a.1 lt m in
      let s = enter_group_lem (t.groups h).os_cpus h home c in
      elim (Bool-cases (mem c (t.groups h).os_cpus)) [
        | inl e ↦ let q : h ≡ g = top.cpus_apart h g c a.0 lt e m in r ∙ ground (arith, s, e, q)
        | inr e ↦ r ∙ ground (arith, s, e, m, λ (q : h ≡ g). ap (λ x. mem c (t.groups x).os_cpus) q)
      ]

  pub count_free-all : (cs : List ℕ) → count_free (λ c. pos 0) cs ≡ length cs
  unfolding count_free
  count_free-all [] = refl
  count_free-all (c ∷ cs) = omega (arith, count_free-all cs)

  pub free_at-all : (gs : List ℕ) → free_at t (λ c. pos 0) gs ≡ num_cores t gs
  unfolding free_at num_cores
  free_at-all [] = refl
  free_at-all (g ∷ gs) = omega (arith, count_free-all (t.groups g).os_cpus, free_at-all gs)

  -- With a topology of disjoint groups, cpu_bind_init leaves the allocator consistent: the counts
  -- of free processors are right, and each processor of a group is entered for that group.
  pub cpu_bind_init-IsConsistent : IsConsistent t (cpu_bind_init t)
  unfolding cpu_bind_init owner_in
  cpu_bind_init-IsConsistent = record {
    is_counted = record {
      group_count = λ g lt. ap pos (sym (count_free-all (t.groups g).os_cpus));
      node_count = λ j lt. ap pos (sym (free_at-all (t.nodes j).group_ids));
    };
    owners = λ c. refl;
    separate = tt;
    placed = tt;
    homes = λ g c lt m.
        enter_groups_lem (up_to t.num_groups) (λ x. negsuc 0) g c
          (mem_of_All _ _ λ h n. ground (arith, n, mem-up_to h t.num_groups)) lt m
        ∙ ground (arith, mem-up_to g t.num_groups, lt);
  }

  take_over-step :
      (id : ℤ) (c g : ℕ) (cs : List ℕ) (b : Binding)
      → b.cpu_to_group c ≡ pos g
      → take_over t id (c ∷ cs) b
        ≡ take_over t id cs
            (add_free t (negsuc 0) g (record b { cpu_owner = update b.cpu_owner c id }))
  unfolding take_over
  take_over-step id c g cs b e =
      let t0 : ltb_ℤ (pos g) (pos 0) ≡ false = ground arith in rw e (rw t0)

  All-free :
      (b : Binding) (c : ℕ) (v k : ℤ) (g : ℕ) (cs : List ℕ)
      → mem c cs ≡ false
      → All (λ x. b.cpu_owner x ≡ pos 0) cs
      → All
          (λ x.
            (add_free t k g (record b { cpu_owner = update b.cpu_owner c v })).cpu_owner x ≡ pos 0)
          cs
  unfolding add_free
  All-free b c v k g cs m h = mem_of_All _ cs λ x n. elim (Bool-cases (x == c)) [
    | inl e ↦ absurd (ground (arith, ap (λ y. mem y cs) (==_iff x c e), m, n))
    | inr e ↦ rw e (All-of_mem (λ y. b.cpu_owner y ≡ pos 0) cs x h n)
  ]

  pub take_over-Changed :
      (id : ℤ) (cs : List ℕ) (b : Binding)
      → id ≢ pos 0
      → Homes top b
      → Counted t b
      → Distinct cs
      → All (Placed t) cs
      → All (λ c. b.cpu_owner c ≡ pos 0) cs
      → Changed top id cs b (take_over t id cs b)
  unfolding take_over mem
  take_over-Changed id [] b busy h counted d p o = record {
    is_counted = counted;
    owner_is = λ c. refl;
    same_allocs = refl;
    same_groups = refl;
  }
  take_over-Changed id (c ∷ cs) b busy h counted d p o =
      let (g, lt, m) = p.0 in
      let one : pos (if b.cpu_owner c ==ℤ pos 0 then 1 else 0) +ℤ negsuc 0
          ≡ pos (if id ==ℤ pos 0 then 1 else 0) =
        let o1 : (b.cpu_owner c ==ℤ pos 0) ≡ true = rw (o.0) refl in
        let i1 : (id ==ℤ pos 0) ≡ false = ground (arith, busy, ==ℤ_iff id (pos 0)) in
        rw o1 (rw i1 (omega int_laws)) in
      rw (take_over-step id c g cs b (h g c lt m)) (
        Changed-cons top id (negsuc 0) c g cs b _ (
          take_over-Changed id cs _ busy (add_free-Homes top (negsuc 0) g _ h)
            (add_free-Counted top b c g (negsuc 0) id lt m one counted) d.1 p.1
            (All-free b c id (negsuc 0) g cs d.0 o.1)))

  -- On a consistent allocator, cpu_bind_claim of distinct free processors of the machine for a job
  -- gives it just these and leaves the allocator consistent.
  pub cpu_bind_claim-IsConsistent :
      (id : ℤ) (c : ℕ) (cs : List ℕ) (mems : ℕ) (main : ℤ) (b : Binding)
      → IsConsistent t b
      → id ≢ pos 0
      → Distinct (c ∷ cs)
      → All (Placed t) (c ∷ cs)
      → All (λ x. b.cpu_owner x ≡ pos 0) (c ∷ cs)
      → (b' : Binding) × (cpu_bind_claim t id (c ∷ cs) mems main b ≡ some b')
        × IsConsistent t b'
        × ((x : ℕ) → b'.cpu_owner x ≡ (if mem x (c ∷ cs) then id else b.cpu_owner x))
  unfolding cpu_bind_claim
  cpu_bind_claim-IsConsistent id c cs mems main b k busy d p o =
      let cpus = sort_cpus (c ∷ cs) in
      let ch =
        take_over-Changed id cpus b busy k.homes k.is_counted (Distinct-sort_cpus _ d)
          (All-sort_cpus _ _ p) (All-sort_cpus _ _ o) in
      let free =
        mem_of_All (λ x. owner_in b.cpu_allocs x ≡ pos 0) cpus
          λ x m.
            sym (k.owners x)
            ∙ All-of_mem (λ y. b.cpu_owner y ≡ pos 0) _ x (All-sort_cpus _ _ o) m in
      let a = claimed id cpus mems main in
      (
        _,
        refl,
        record {
          is_counted = ch.is_counted;
          owners = λ x. rw ch.same_allocs (
              ground (
                arith,
                ch.owner_is x,
                k.owners x,
                owner_in-append b.cpu_allocs a x k.separate free,
              ));
          separate =
              rw ch.same_allocs
                (Separate-append b.cpu_allocs a k.separate free busy (Distinct-sort_cpus _ d));
          placed =
              rw ch.same_allocs
                (All-append _ b.cpu_allocs (a ∷ []) k.placed (All-sort_cpus _ _ p, tt));
          homes = λ g x lt m. ap (λ (f : ℕ → ℤ). f x) ch.same_groups ∙ k.homes g x lt m;
        },
        λ x. ch.owner_is x ∙ rw (mem-sort_cpus x (c ∷ cs)),
      )

  pub cpu_bind_alloc_init-IsConsistent :
      (id max_cpus : ℤ) (b : Binding)
      → IsConsistent t b
      → id ≢ pos 0
      → IsConsistent t (cpu_bind_alloc_init id max_cpus b)
  unfolding cpu_bind_alloc_init mem
  cpu_bind_alloc_init-IsConsistent id max_cpus b k busy =
      let a = new_alloc id max_cpus in
      record {
        is_counted = k.is_counted;
        owners = λ x. k.owners x ∙ sym (owner_in-append b.cpu_allocs a x k.separate tt);
        separate = Separate-append b.cpu_allocs a k.separate tt busy tt;
        placed = All-append _ b.cpu_allocs (a ∷ []) k.placed (tt, tt);
        homes = k.homes;
      }
