-- ===== src/CpuBind/Claim.antt =====
-- cpu_bind.c: the start of the allocator, the release of an allocation and the claim of processors
-- after a restart.
use task_spooler_plus.Base.{
  ℕ, ℤ, pos, negsuc, ◌+◌, ◌+ℤ◌, ltb_ℤ, pos_part, List, [], ◌∷◌, ◌++◌, Option, none, some, false,
  if◌then◌else◌, get_elem?, remove_at, length,
}
use task_spooler_plus.Outcome.{Outcome, ok, died, ◌>>=◌}
use task_spooler_plus.CpuBind.{Topology, CpuAlloc, Binding, update, up_to, sort_cpus}

-- The entries of cpu_to_group for the processors of one group.
unfoldable pub enter_group : List ℕ → ℕ → (ℕ → ℤ) → ℕ → ℤ
enter_group [] g home = home
enter_group (c ∷ cs) g home = enter_group cs g (update home c (pos g))

-- The fields that cpu_bind_claim sets. `cpus` is in order.
abbrev pub claimed : ℤ → List ℕ → ℕ → ℤ → CpuAlloc
claimed id cpus mems main = record {
  primary_node = main;
  mem_nodes = mems;
  slots = pos (length cpus);
  jobid = id;
  error = false;
  quality = 0;
  os_cpus = cpus;
}

module _ (t : Topology) where
  unfoldable pub enter_groups : List ℕ → (ℕ → ℤ) → ℕ → ℤ
  enter_groups [] home = home
  enter_groups (g ∷ gs) home = enter_groups gs (enter_group (t.groups g).os_cpus g home)

  -- num_cores of a node in the generated topology.
  unfoldable pub num_cores : List ℕ → ℕ
  num_cores [] = 0
  num_cores (g ∷ gs) = length (t.groups g).os_cpus + num_cores gs

  unfoldable pub cpu_bind_init : Binding
  cpu_bind_init = record {
    cpu_owner = λ c. pos 0;
    cpu_to_group = enter_groups (up_to t.num_groups) (λ c. negsuc 0);
    group_free = λ g. pos (length (t.groups g).os_cpus);
    node_free = λ i. pos (num_cores (t.nodes i).group_ids);
    cpu_allocs = [];
    disabled = false;
    defrag_disabled = false;
  }

  -- Adds to the counts of free processors of the group and of the node of a group.
  unfoldable pub add_free : ℤ → ℕ → Binding → Binding
  add_free k g b =
      let j = (t.groups g).node_id in
      record b {
        group_free = update b.group_free g (b.group_free g +ℤ k);
        node_free = update b.node_free j (b.node_free j +ℤ k);
      }

  -- The loop of cpu_bind_free. The source does not test the group: an index -1 lies before the array.
  unfoldable pub release_cpus : List ℕ → Binding → Outcome Binding
  release_cpus [] b = ok b
  release_cpus (c ∷ cs) b =
      let freed = record b { cpu_owner = update b.cpu_owner c (pos 0) } in
      let rest = release_cpus cs (add_free (pos 1) (pos_part (b.cpu_to_group c)) freed) in
      if ltb_ℤ (b.cpu_to_group c) (pos 0) then died else rest

  -- On the allocation at a place of cpu_allocs; NULL is no place.
  unfoldable pub cpu_bind_free : ℕ → Binding → Outcome Binding
  cpu_bind_free k b = elim (get_elem? b.cpu_allocs k) [
    | none ↦ ok b
    | some a ↦
        release_cpus a.os_cpus b >>= λ b'. ok (record b' { cpu_allocs = remove_at b'.cpu_allocs k })
  ]

  -- The loop of cpu_bind_claim over its processors.
  unfoldable pub take_over : ℤ → List ℕ → Binding → Binding
  take_over id [] b = b
  take_over id (c ∷ cs) b =
      let owned = record b { cpu_owner = update b.cpu_owner c id } in
      take_over id cs (
        if ltb_ℤ (b.cpu_to_group c) (pos 0)
        then owned
        else add_free (negsuc 0) (pos_part (b.cpu_to_group c)) owned)

  -- With memory for the allocation. The allocation is the last of the new cpu_allocs; `none` is NULL.
  unfoldable pub cpu_bind_claim : ℤ → List ℕ → ℕ → ℤ → Binding → Option Binding
  cpu_bind_claim id [] mems main b = none
  cpu_bind_claim id (c ∷ cs) mems main b =
      let cpus = sort_cpus (c ∷ cs) in
      let b' = take_over id cpus b in
      some (record b' { cpu_allocs = b'.cpu_allocs ++ claimed id cpus mems main ∷ [] })
