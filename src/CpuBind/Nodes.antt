-- ===== src/CpuBind/Nodes.antt =====
-- cpu_bind.c cross_node_merge: the nodes that are collected have enough processors together.
use task_spooler_plus.Base.{
  ℕ, ℤ, pos, ◌+◌, ◌≤◌, ◌<◌, ◌+ℤ◌, ◌≤ℤ◌, ltb_ℤ, ◌==◌, List, [], ◌∷◌, ◌++◌, some, true, false, ◌≡◌,
  ◌≢◌, All, All-append, length, sum, Bool-cases, inl, inr, arith, int_laws, parts, subst, sym,
}
use Prim.Native.Nat.{bit_or, ◌^◌}
use task_spooler_plus.CpuBind.{
  Topology, CpuAlloc, Binding, collect_nodes, cross_node_merge, sort_nodes, up_to, total_free,
  main_node,
}
use task_spooler_plus.CpuBind.Took.{
  mem, Distinct, mem-append, All-of_mem, mem_of_All, Distinct-append, ==_iff,
}
use task_spooler_plus.CpuBind.Counts.{IsTopology, Counted, free_at}
use task_spooler_plus.CpuBind.Alloc.{Allotted}
use task_spooler_plus.CpuBind.Groups.{alloc_from_groups-Allotted}
use task_spooler_plus.CpuBind.Sorting.{
  mem-sort_nodes, Distinct-sort_nodes, sum-sort_nodes, mem-up_to, Distinct-up_to,
}

free_at-append :
    (t : Topology) (o : ℕ → ℤ) (xs ys : List ℕ)
    → free_at t o (xs ++ ys) ≡ free_at t o xs + free_at t o ys
unfolding free_at
free_at-append t o [] ys = omega arith
free_at-append t o (x ∷ xs) ys = omega (arith, free_at-append t o xs ys)

collect_nodes-more :
    (t : Topology) (free : ℕ → ℤ) (n : ℤ) (i : ℕ) (is : List ℕ) (total : ℤ) (bitmap : ℕ)
    → ltb_ℤ total n ≡ true
    → (collect_nodes t free n (i ∷ is) total bitmap).0
      ≡ (t.nodes i).group_ids
        ++ (collect_nodes t free n is (total +ℤ free i) (bit_or bitmap (2 ^ i))).0
unfolding collect_nodes
collect_nodes-more t free n i is total bitmap e = rw (e, collect_nodes)

collect_nodes-stop :
    (t : Topology) (free : ℕ → ℤ) (n : ℤ) (i : ℕ) (is : List ℕ) (total : ℤ) (bitmap : ℕ)
    → ltb_ℤ total n ≡ false
    → (collect_nodes t free n (i ∷ is) total bitmap).0 ≡ []
unfolding collect_nodes
collect_nodes-stop t free n i is total bitmap e = rw (e, collect_nodes)

-- Distinct groups of the nodes `is` that have `n - total` free processors together.
record IsCollection (t : Topology) (b : Binding) (n : ℤ) (is : List ℕ) (total : ℤ) (gs : List ℕ)
    : Type 0 where
  in_range : All (λ g. g < t.num_groups) gs
  distinct : Distinct gs
  of_nodes : (g : ℕ) → mem g gs ≡ true → mem ((t.groups g).node_id) is ≡ true
  enough : n ≤ℤ total +ℤ sum b.node_free is → n ≤ℤ total +ℤ pos (free_at t b.cpu_owner gs)

module _ {t : Topology} (top : IsTopology t) (b : Binding) (ok : Counted t b) (n : ℤ) where
  group_node :
      (i g : ℕ) → i < t.num_nodes → mem g (t.nodes i).group_ids ≡ true → (t.groups g).node_id ≡ i
  group_node i g lt m =
      ==_iff _ _ (ground (arith, top.ids_iff g i (All-of_mem _ _ g (top.ids_below i lt) m) lt, m))

  IsCollection-append :
      (i : ℕ) (is : List ℕ) (total : ℤ) (gs : List ℕ)
      → i < t.num_nodes
      → mem i is ≡ false
      → IsCollection t b n is (total +ℤ b.node_free i) gs
      → IsCollection t b n (i ∷ is) total ((t.nodes i).group_ids ++ gs)
  unfolding mem sum
  IsCollection-append i is total gs lt fresh r = record {
    in_range = All-append _ _ gs (top.ids_below i lt) r.in_range;
    distinct = Distinct-append _ gs (top.ids_distinct i lt) r.distinct (
        mem_of_All _ _ λ g m. elim (Bool-cases (mem g gs)) [
          | inl e ↦ ground (arith, group_node i g lt m, r.of_nodes g e, fresh)
          | inr e ↦ e
        ]);
    of_nodes = λ g m. elim (Bool-cases (mem g (t.nodes i).group_ids)) [
      | inl e ↦ ground (arith, group_node i g lt e)
      | inr e ↦ ground (arith, r.of_nodes g, mem-append g (t.nodes i).group_ids gs, m, e)
    ];
    enough = λ h.
        let k = r.enough (omega (int_laws, h)) in
        omega (
          int_laws,
          k,
          parts (ok.node_count i lt),
          free_at-append t b.cpu_owner (t.nodes i).group_ids gs,
        );
  }

  collect_nodes-IsCollection :
      (is : List ℕ) (total : ℤ) (bitmap : ℕ)
      → All (λ i. i < t.num_nodes) is
      → Distinct is
      → IsCollection t b n is total (collect_nodes t b.node_free n is total bitmap).0
  unfolding collect_nodes sum free_at mem
  collect_nodes-IsCollection [] total bitmap h d = record {
    in_range = tt;
    distinct = tt;
    of_nodes = λ g m. cc;
    enough = λ k. k;
  }
  collect_nodes-IsCollection (i ∷ is) total bitmap h d = elim (Bool-cases (ltb_ℤ total n)) [
    | inl e ↦
        subst (IsCollection t b n (i ∷ is) total)
          (sym (collect_nodes-more t b.node_free n i is total bitmap e))
          (IsCollection-append i is total _ h.0 d.0 (
            collect_nodes-IsCollection is (total +ℤ b.node_free i) (bit_or bitmap (2 ^ i)) h.1 d.1))
    | inr e ↦
        subst (IsCollection t b n (i ∷ is) total)
          (sym (collect_nodes-stop t b.node_free n i is total bitmap e))
          record {
            in_range = tt;
            distinct = tt;
            of_nodes = λ g m. cc;
            enough = λ k. let le : n ≤ℤ total = ground (arith, e) in omega (int_laws, le);
          }
  ]

nonempty :
    (t : Topology) (b : Binding) (gs : List ℕ) (n : ℕ)
    → 0 < n
    → n ≤ free_at t b.cpu_owner gs
    → (length gs == 0) ≡ false
unfolding free_at
nonempty t b [] n p h = absurd (omega (arith, p, h))
nonempty t b (g ∷ gs) n p h = ground arith

-- All nodes together have enough: an allocation over several nodes gets all.
pub cross_node_merge-Allotted :
    {t : Topology} (top : IsTopology t) (n : ℕ) (b : Binding) (a : CpuAlloc)
    → a.jobid ≢ pos 0
    → Counted t b
    → 0 < n
    → pos n ≤ℤ total_free t b
    → (main : ℤ) × (mems : ℕ) × (b' : Binding) × (a' : CpuAlloc) × (cross_node_merge t n b a
        ≡ some (b', a'))
      × Allotted t b (record a { primary_node = main; mem_nodes = mems }) n b' a'
unfolding cross_node_merge
cross_node_merge-Allotted {t} top n b a busy ok p h =
    let order = sort_nodes b.node_free (up_to t.num_nodes) in
    let found = collect_nodes t b.node_free (pos n) order (pos 0) 0 in
    let c : IsCollection t b (pos n) order (pos 0) (found.0) =
      collect_nodes-IsCollection top b ok (pos n) order (pos 0) 0
        (mem_of_All _ order λ i m.
          ground
            (arith, m, mem-sort_nodes b.node_free i (up_to t.num_nodes), mem-up_to i t.num_nodes))
        (Distinct-sort_nodes b.node_free _ (Distinct-up_to t.num_nodes)) in
    let k =
      c.enough
        (omega (int_laws, h, parts (sum-sort_nodes b.node_free b.node_free (up_to t.num_nodes)))) in
    let a1 = record a { primary_node = main_node t b n a.jobid order; mem_nodes = found.1 } in
    let (b', a', e, q) =
      alloc_from_groups-Allotted top (found.0) c.in_range c.distinct n b a1 busy ok
        (omega (int_laws, k)) in
    (
      a1.primary_node,
      a1.mem_nodes,
      b',
      a',
      rw (nonempty t b (found.0) n p (omega (int_laws, k))) e,
      q,
    )
