-- ===== src/CpuBind/Counts.antt =====
-- cpu_bind.c: what is relied on of the generated topology, and the counts of free processors.
use task_spooler_plus.Base.{
  ℕ, ℤ, pos, ◌+◌, ◌<◌, ◌==◌, List, [], ◌∷◌, true, false, ◌≡◌, refl, ◌≢◌, All, Bool-cases, inl, inr,
  arith, sym, ap, ◌∙◌,
}
use task_spooler_plus.CpuBind.{Topology, Binding, update}
use task_spooler_plus.CpuBind.Took.{mem, Distinct, count_free, count_free-ext, ==_iff, mem_of_All}

-- gen_topology.py: no processor is in two groups or twice in one, and a node has the groups that name
-- it, once each.
pub record IsTopology (t : Topology) : Type 0 where
  pub cpus_distinct : (g : ℕ) → g < t.num_groups → Distinct (t.groups g).os_cpus
  pub cpus_apart :
      (g h c : ℕ)
      → g < t.num_groups
      → h < t.num_groups
      → mem c (t.groups g).os_cpus ≡ true
      → mem c (t.groups h).os_cpus ≡ true
      → g ≡ h
  pub cpus_below : (g : ℕ) → g < t.num_groups → All (λ c. c < t.max_os_cpu) (t.groups g).os_cpus
  pub ids_distinct : (j : ℕ) → j < t.num_nodes → Distinct (t.nodes j).group_ids
  pub ids_iff :
      (g j : ℕ)
      → g < t.num_groups
      → j < t.num_nodes
      → mem g (t.nodes j).group_ids ≡ ((t.groups g).node_id == j)
  pub ids_below : (j : ℕ) → j < t.num_nodes → All (λ g. g < t.num_groups) (t.nodes j).group_ids
  pub node_ids : (j : ℕ) → j < t.num_nodes → (t.nodes j).node_id ≡ j
  pub group_nodes : (g : ℕ) → g < t.num_groups → (t.groups g).node_id < t.num_nodes

module _ (t : Topology) where
  -- The free processors of some groups.
  unfoldable pub free_at : (ℕ → ℤ) → List ℕ → ℕ
  free_at o [] = 0
  free_at o (g ∷ gs) = count_free o (t.groups g).os_cpus + free_at o gs

  -- The counts of the groups and of the nodes are those of the processors without owner.
  pub record IsCounted (o group_free node_free : ℕ → ℤ) : Type 0 where
    pub group_count :
        (g : ℕ) → g < t.num_groups → group_free g ≡ pos (count_free o (t.groups g).os_cpus)
    pub node_count : (j : ℕ) → j < t.num_nodes → node_free j ≡ pos (free_at o (t.nodes j).group_ids)

  abbrev pub Counted : Binding → Type 0
  Counted b = IsCounted b.cpu_owner b.group_free b.node_free

-- A change of owners within the group `g`.
module _ {t : Topology} (top : IsTopology t) {g : ℕ} (in_range : g < t.num_groups) (o o' : ℕ → ℤ)
    (outside : (c : ℕ) → mem c (t.groups g).os_cpus ≡ false → o' c ≡ o c) where
  count-other :
      (h : ℕ)
      → h < t.num_groups
      → h ≢ g
      → count_free o' (t.groups h).os_cpus ≡ count_free o (t.groups h).os_cpus
  count-other h lt ne = count_free-ext o' o _ (
      mem_of_All _ _ λ c m. elim (Bool-cases (mem c (t.groups g).os_cpus)) [
        | inl e ↦ absurd (ne (top.cpus_apart h g c lt in_range m e))
        | inr e ↦ outside c e
      ])

  pub free_at-other :
      (gs : List ℕ)
      → All (λ h. h < t.num_groups) gs
      → mem g gs ≡ false
      → free_at t o' gs ≡ free_at t o gs
  unfolding free_at mem
  free_at-other [] b m = refl
  free_at-other (h ∷ gs) b m = elim (Bool-cases (h == g)) [
    | inl e ↦ ground (arith, e, m)
    | inr e ↦
        ground (arith, count-other h b.0 (λ q. ground (arith, q, e)), free_at-other gs b.1, e, m)
  ]

  -- The processors of the group count once in a list with the group.
  pub free_at-moved :
      (gs : List ℕ)
      → All (λ h. h < t.num_groups) gs
      → Distinct gs
      → mem g gs ≡ true
      → free_at t o' gs + count_free o (t.groups g).os_cpus
        ≡ free_at t o gs + count_free o' (t.groups g).os_cpus
  unfolding free_at mem
  free_at-moved [] b d m = cc
  free_at-moved (h ∷ gs) b d m = elim (Bool-cases (h == g)) [
    | inl e ↦
        let q : h ≡ g = ==_iff h g e in rw q (omega (arith, free_at-other gs b.1 (rw (← q) (d.0))))
    | inr e ↦
        ground
          (arith, count-other h b.0 (λ q. ground (arith, q, e)), free_at-moved gs b.1 d.1, e, m)
  ]

  pub moved-IsCounted :
      (group_free node_free : ℕ → ℤ) (x y : ℤ)
      → IsCounted t o group_free node_free
      → x ≡ pos (count_free o' (t.groups g).os_cpus)
      → y ≡ pos (free_at t o' (t.nodes ((t.groups g).node_id)).group_ids)
      → IsCounted t o' (update group_free g x) (update node_free ((t.groups g).node_id) y)
  moved-IsCounted gf nf x y ok ex ey = record {
    group_count = λ h lt. elim (Bool-cases (h == g)) [
      | inl e ↦ rw e (rw (==_iff h g e) ex)
      | inr e ↦
          rw e (ok.group_count h lt ∙ ap pos (sym (count-other h lt (λ q. ground (arith, q, e)))))
    ];
    node_count = λ j lt. elim (Bool-cases (j == (t.groups g).node_id)) [
      | inl e ↦ rw e (rw (==_iff j _ e) ey)
      | inr e ↦ rw e (
          ok.node_count j lt
          ∙ ap pos (
              sym (
                free_at-other _ (top.ids_below j lt)
                  (ground (arith, top.ids_iff g j in_range lt, e)))))
    ];
  }
