-- ===== src/CpuBind/Release.antt =====
-- cpu_bind.c cpu_bind_free and cpu_bind_claim: the processors of an allocation are given back, or
-- taken over after a restart.
use task_spooler_plus.Base.{
  ℕ, ℤ, pos, ◌+◌, ◌<◌, ◌+ℤ◌, ltb_ℤ, ◌==ℤ◌, ==ℤ_iff, ◌==◌, List, [], ◌∷◌, true, false, if◌then◌else◌,
  ◌≡◌, refl, ◌≢◌, ◌∙◌, ap, All, Bool-cases, inl, inr, arith, int_laws, parts,
}
use task_spooler_plus.Outcome.{ok}
use task_spooler_plus.CpuBind.{Topology, Binding, update}
use task_spooler_plus.CpuBind.Claim.{add_free, release_cpus}
use task_spooler_plus.CpuBind.Took.{
  mem, Distinct, count_free, count_free-update, mem_of_All, All-of_mem, ==_iff,
}
use task_spooler_plus.CpuBind.Counts.{IsTopology, Counted, free_at-moved, moved-IsCounted}
use task_spooler_plus.CpuBind.Alloc.{Placed}

-- The owner of one processor of a list changes.
pub count_free-change :
    (o : ℕ → ℤ) (c : ℕ) (v : ℤ) (cs : List ℕ)
    → Distinct cs
    → mem c cs ≡ true
    → count_free (update o c v) cs + (if o c ==ℤ pos 0 then 1 else 0)
      ≡ count_free o cs + (if v ==ℤ pos 0 then 1 else 0)
unfolding count_free mem
count_free-change o c v [] d m = cc
count_free-change o c v (x ∷ cs) d m = elim (Bool-cases (x == c)) [
  | inl e ↦
      let q : x ≡ c = ==_iff x c e in
      rw q (ground (arith, count_free-update o c v cs (rw (← q) (d.0))))
  | inr e ↦ ground (arith, e, count_free-change o c v cs d.1, m)
]

module _ {t : Topology} (top : IsTopology t) where
  abbrev pub Homes : Binding → Type 0
  Homes b =
      (g c : ℕ) → g < t.num_groups → mem c (t.groups g).os_cpus ≡ true → b.cpu_to_group c ≡ pos g

  pub outside :
      (o : ℕ → ℤ) (c g : ℕ) (v : ℤ)
      → mem c (t.groups g).os_cpus ≡ true
      → (x : ℕ) → mem x (t.groups g).os_cpus ≡ false
      → update o c v x ≡ o x
  outside o c g v m x n = elim (Bool-cases (x == c)) [
    | inl e ↦ absurd (ground (arith, ap (λ y. mem y (t.groups g).os_cpus) (==_iff x c e), m, n))
    | inr e ↦ rw e
  ]

  -- The counts follow the owner of one processor.
  pub add_free-Counted :
      (b : Binding) (c g : ℕ) (k v : ℤ)
      → g < t.num_groups
      → mem c (t.groups g).os_cpus ≡ true
      → pos (if b.cpu_owner c ==ℤ pos 0 then 1 else 0) +ℤ k ≡ pos (if v ==ℤ pos 0 then 1 else 0)
      → Counted t b
      → Counted t (add_free t k g (record b { cpu_owner = update b.cpu_owner c v }))
  unfolding add_free
  add_free-Counted b c g k v lt m e counted =
      let n = count_free-change b.cpu_owner c v _ (top.cpus_distinct g lt) m in
      let j = (t.groups g).node_id in
      let lj = top.group_nodes g lt in
      let out = outside b.cpu_owner c g v m in
      moved-IsCounted top lt b.cpu_owner (update b.cpu_owner c v) out b.group_free b.node_free _ _
        counted (omega (int_laws, parts (counted.group_count g lt), n, parts e))
        (omega (
          int_laws,
          parts (counted.node_count j lj),
          n,
          parts e,
          free_at-moved top lt b.cpu_owner (update b.cpu_owner c v) out (t.nodes j).group_ids
              (top.ids_below j lj) (top.ids_distinct j lj) (ground (arith, top.ids_iff g j lt lj)),
        ))

  pub add_free-Homes : (k : ℤ) (g : ℕ) (b : Binding) → Homes b → Homes (add_free t k g b)
  unfolding add_free
  add_free-Homes k g b h = h

  release_cpus-step :
      (c g : ℕ) (cs : List ℕ) (b : Binding)
      → b.cpu_to_group c ≡ pos g
      → release_cpus t (c ∷ cs) b
        ≡ release_cpus t cs
            (add_free t (pos 1) g (record b { cpu_owner = update b.cpu_owner c (pos 0) }))
  unfolding release_cpus
  release_cpus-step c g cs b e =
      let t0 : ltb_ℤ (pos g) (pos 0) ≡ false = ground arith in rw e (rw t0)

  -- The owners of some processors are changed to `v`, and nothing else but the counts.
  pub record Changed (v : ℤ) (cs : List ℕ) (b b' : Binding) : Type 0 where
    pub is_counted : Counted t b'
    pub owner_is : (c : ℕ) → b'.cpu_owner c ≡ (if mem c cs then v else b.cpu_owner c)
    pub same_allocs : b'.cpu_allocs ≡ b.cpu_allocs
    pub same_groups : b'.cpu_to_group ≡ b.cpu_to_group

  pub Changed-cons :
      (v k : ℤ) (c g : ℕ) (cs : List ℕ) (b b' : Binding)
      → Changed v cs (add_free t k g (record b { cpu_owner = update b.cpu_owner c v })) b'
      → Changed v (c ∷ cs) b b'
  unfolding add_free mem
  Changed-cons v k c g cs b b' r = record {
    is_counted = r.is_counted;
    owner_is = λ x. ground (arith, r.owner_is x, ==_iff x c);
    same_allocs = r.same_allocs;
    same_groups = r.same_groups;
  }

  All-updated :
      (b : Binding) (c : ℕ) (v k : ℤ) (g : ℕ) (cs : List ℕ)
      → mem c cs ≡ false
      → All (λ x. b.cpu_owner x ≢ pos 0) cs
      → All
          (λ x.
            (add_free t k g (record b { cpu_owner = update b.cpu_owner c v })).cpu_owner x ≢ pos 0)
          cs
  unfolding add_free
  All-updated b c v k g cs m h = mem_of_All _ cs λ x n. elim (Bool-cases (x == c)) [
    | inl e ↦ absurd (ground (arith, ap (λ y. mem y cs) (==_iff x c e), m, n))
    | inr e ↦ rw e (All-of_mem (λ y. b.cpu_owner y ≢ pos 0) cs x h n)
  ]

  pub release_cpus-Changed :
      (cs : List ℕ) (b : Binding)
      → Homes b
      → Counted t b
      → Distinct cs
      → All (Placed t) cs
      → All (λ c. b.cpu_owner c ≢ pos 0) cs
      → (b' : Binding) × (release_cpus t cs b ≡ ok b') × Changed (pos 0) cs b b'
  unfolding release_cpus mem
  release_cpus-Changed [] b h counted d p o = (
    b,
    refl,
    record { is_counted = counted; owner_is = λ c. refl; same_allocs = refl; same_groups = refl },
  )
  release_cpus-Changed (c ∷ cs) b h counted d p o =
      let (g, lt, m) = p.0 in
      let o1 : (b.cpu_owner c ==ℤ pos 0) ≡ false =
        ground (arith, o.0, ==ℤ_iff (b.cpu_owner c) (pos 0)) in
      let one : pos (if b.cpu_owner c ==ℤ pos 0 then 1 else 0) +ℤ pos 1
          ≡ pos (if pos 0 ==ℤ pos 0 then 1 else 0) =
        rw o1 (omega int_laws) in
      let owned = All-updated b c (pos 0) (pos 1) g cs d.0 o.1 in
      let b1 = add_free t (pos 1) g (record b { cpu_owner = update b.cpu_owner c (pos 0) }) in
      let (b', e, r) =
        release_cpus-Changed cs b1 (add_free-Homes (pos 1) g _ h)
          (add_free-Counted b c g (pos 1) (pos 0) lt m one counted) d.1 p.1 owned in
      (b', release_cpus-step c g cs b (h g c lt m) ∙ e, Changed-cons (pos 0) (pos 1) c g cs b b' r)
