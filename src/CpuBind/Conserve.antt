-- ===== src/CpuBind/Conserve.antt =====
-- cpu_bind.c: the free processors and those of the allocations are all the processors of the nodes.
use mathlib.Core.Path.{fun_ext}
use task_spooler_plus.Base.{
  ℕ, ℤ, pos, ◌+◌, ◌<◌, ◌≤◌, ◌+ℤ◌, ◌==◌, ◌==ℤ◌, ==ℤ_iff, List, [], ◌∷◌, true, false, if◌then◌else◌,
  ◌≡◌, refl, ◌≢◌, ap, All, length, sum, Bool-cases, inl, inr, arith, int_laws, parts,
}
use task_spooler_plus.CpuBind.{Topology, CpuAlloc, Binding, update, up_to, total_free}
use task_spooler_plus.CpuBind.Claim.{num_cores}
use task_spooler_plus.CpuBind.Took.{mem, Distinct, ==_iff, mem_of_All}
use task_spooler_plus.CpuBind.Counts.{IsTopology, Counted, free_at, free_at-other, free_at-moved}
use task_spooler_plus.CpuBind.Alloc.{Placed}
use task_spooler_plus.CpuBind.Owners.{owner_in, Separate, IsConsistent}
use task_spooler_plus.CpuBind.Release.{outside, count_free-change}
use task_spooler_plus.CpuBind.Restore.{free_at-all}
use task_spooler_plus.CpuBind.Sorting.{mem-up_to, Distinct-up_to}

-- The processors of some allocations.
unfoldable pub cpus_in : List CpuAlloc → ℕ
cpus_in [] = 0
cpus_in (a ∷ ls) = length a.os_cpus + cpus_in ls

module _ (t : Topology) where
  unfoldable pub nodes_free : (ℕ → ℤ) → List ℕ → ℕ
  nodes_free o [] = 0
  nodes_free o (j ∷ js) = free_at t o (t.nodes j).group_ids + nodes_free o js

  unfoldable pub all_cores : List ℕ → ℕ
  all_cores [] = 0
  all_cores (j ∷ js) = num_cores t (t.nodes j).group_ids + all_cores js

module _ {t : Topology} (top : IsTopology t) where
  -- One free processor is taken: its node has one less.
  nodes_free-update :
      (o : ℕ → ℤ) (c g : ℕ) (v : ℤ) (js : List ℕ)
      → g < t.num_groups
      → mem c (t.groups g).os_cpus ≡ true
      → o c ≡ pos 0
      → v ≢ pos 0
      → Distinct js
      → All (λ j. j < t.num_nodes) js
      → nodes_free t (update o c v) js + (if mem (t.groups g).node_id js then 1 else 0)
        ≡ nodes_free t o js
  unfolding nodes_free mem
  nodes_free-update o c g v [] lt m z busy d b = refl
  nodes_free-update o c g v (j ∷ js) lt m z busy d b =
      let ih = nodes_free-update o c g v js lt m z busy d.1 b.1 in
      let out = outside top o c g v m in
      let n = count_free-change o c v _ (top.cpus_distinct g lt) m in
      let o1 : (o c ==ℤ pos 0) ≡ true = rw z refl in
      let v1 : (v ==ℤ pos 0) ≡ false = ground (arith, busy, ==ℤ_iff v (pos 0)) in
      elim (Bool-cases (j == (t.groups g).node_id)) [
        | inl e ↦
            let q = ==_iff j _ e in
            let inside : mem g (t.nodes j).group_ids ≡ true =
              ground (arith, top.ids_iff g j lt b.0, e) in
            let moved =
              free_at-moved top lt o (update o c v) out (t.nodes j).group_ids (top.ids_below j b.0)
                (top.ids_distinct j b.0) inside in
            let fresh : mem (t.groups g).node_id js ≡ false = rw (← q) (d.0) in
            ground (arith, ih, moved, n, o1, v1, e, fresh)
        | inr e ↦
            let other =
              free_at-other top lt o (update o c v) out (t.nodes j).group_ids (top.ids_below j b.0)
                (ground (arith, top.ids_iff g j lt b.0, e)) in
            ground (arith, ih, other, e)
      ]

  every_node : All (λ j. j < t.num_nodes) (up_to t.num_nodes)
  every_node = mem_of_All _ _ λ j m. ground (arith, m, mem-up_to j t.num_nodes)

  -- Distinct free processors are taken.
  nodes_free-take :
      (o : ℕ → ℤ) (v : ℤ) (cs : List ℕ)
      → v ≢ pos 0
      → Distinct cs
      → All (Placed t) cs
      → All (λ c. o c ≡ pos 0) cs
      → nodes_free t (λ c. if mem c cs then v else o c) (up_to t.num_nodes) + length cs
        ≡ nodes_free t o (up_to t.num_nodes)
  unfolding mem
  nodes_free-take o v [] busy d p f = omega arith
  nodes_free-take o v (x ∷ cs) busy d p f =
      let before : ℕ → ℤ = λ c. if mem c cs then v else o c in
      let (g, lt, m) = p.0 in
      let same : (λ c. if mem c (x ∷ cs) then v else o c) ≡ update before x v =
        fun_ext λ c. ground (arith, ==_iff x c, ==_iff c x) in
      let step =
        nodes_free-update before x g v (up_to t.num_nodes) lt m (rw (d.0) (f.0)) busy
          (Distinct-up_to t.num_nodes) every_node in
      let in_nodes : mem (t.groups g).node_id (up_to t.num_nodes) ≡ true =
        ground (arith, mem-up_to (t.groups g).node_id t.num_nodes, top.group_nodes g lt) in
      let ih = nodes_free-take o v cs busy d.1 p.1 f.1 in
      let e = ap (λ h. nodes_free t h (up_to t.num_nodes)) same in
      let one : nodes_free t (update before x v) (up_to t.num_nodes) + 1
          ≡ nodes_free t before (up_to t.num_nodes) =
        rw in_nodes at step in
      omega (arith, e, one, ih)

  nodes_free-owner_in :
      (ls : List CpuAlloc)
      → Separate ls
      → All (λ (a : CpuAlloc). All (Placed t) a.os_cpus) ls
      → nodes_free t (owner_in ls) (up_to t.num_nodes) + cpus_in ls
        ≡ nodes_free t (λ c. pos 0) (up_to t.num_nodes)
  unfolding owner_in cpus_in
  nodes_free-owner_in [] s p = omega arith
  nodes_free-owner_in (a ∷ ls) s p = omega (
    arith,
    nodes_free-take (owner_in ls) a.jobid a.os_cpus s.0 s.1 p.0 s.2,
    nodes_free-owner_in ls s.3 p.1,
  )

  nodes_free-all : (js : List ℕ) → nodes_free t (λ c. pos 0) js ≡ all_cores t js
  unfolding nodes_free all_cores
  nodes_free-all [] = refl
  nodes_free-all (j ∷ js) = omega (arith, free_at-all top (t.nodes j).group_ids, nodes_free-all js)

  sum-node_free :
      (b : Binding) (js : List ℕ)
      → Counted t b
      → All (λ j. j < t.num_nodes) js
      → sum b.node_free js ≡ pos (nodes_free t b.cpu_owner js)
  unfolding sum nodes_free
  sum-node_free b [] ok lt = refl
  sum-node_free b (j ∷ js) ok lt =
      omega (int_laws, parts (ok.node_count j lt.0), parts (sum-node_free b js ok lt.1))

  pub cpus_in-all_cores :
      (b : Binding) → IsConsistent t b → cpus_in b.cpu_allocs ≤ all_cores t (up_to t.num_nodes)
  cpus_in-all_cores b c = omega (
    arith,
    nodes_free-owner_in b.cpu_allocs c.separate c.placed,
    nodes_free-all (up_to t.num_nodes),
  )

  -- On a consistent allocator the free processors that the nodes count, and those of the
  -- allocations, are together all the processors of the nodes.
  pub total_free-cpus_in :
      (b : Binding)
      → IsConsistent t b
      → total_free t b +ℤ pos (cpus_in b.cpu_allocs) ≡ pos (all_cores t (up_to t.num_nodes))
  total_free-cpus_in b c =
      let owners = ap (λ o. nodes_free t o (up_to t.num_nodes)) (fun_ext c.owners) in
      omega (
        int_laws,
        parts (sum-node_free b (up_to t.num_nodes) c.is_counted every_node),
        owners,
        nodes_free-owner_in b.cpu_allocs c.separate c.placed,
        nodes_free-all (up_to t.num_nodes),
      )
