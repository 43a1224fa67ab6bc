-- ===== src/Samples/Topology.antt =====
-- The theorems on the allocator of processors, on a machine with two nodes: the first has the groups 0
-- and 1 with three and two processors, the second the group 2 with two.
use task_spooler_plus.Base.{
  ℕ, zero, suc, ℤ, List, pos, ◌<◌, ◌+◌, ◌+ℤ◌, ◌-ℤ◌, neg, ◌++◌, sum, subst, ◌==◌, ltb, sym, ◌∙◌, [],
  ◌∷◌, some, true, false, ◌≡◌, refl, set, length, remove_at, if◌then◌else◌, arith,
}
use task_spooler_plus.Outcome.{ok, died}
use task_spooler_plus.CpuBind.{
  Topology, CoreGroup, NodeInfo, CpuAlloc, Binding, total_free, up_to, choose_group, cpu_bind_alloc,
  cpu_bind_alloc_init, new_alloc, sort_cpus, insert_cpu, alloc_cpus, alloc_path, best_node,
  alloc_from_groups, alloc_loop, take_from_group, take_cores, or_most_free, best_fit, better_fit,
  cpu_bind_post_alloc,
}
use task_spooler_plus.CpuBind.Claim.{
  cpu_bind_init, num_cores, take_over, claimed, add_free, enter_group, enter_groups, cpu_bind_free,
  cpu_bind_claim,
}
use task_spooler_plus.CpuBind.Took.{mem, Took}
use task_spooler_plus.CpuBind.Counts.{IsTopology}
use task_spooler_plus.CpuBind.Choice.{IsChoice, choose_group-IsChoice}
use task_spooler_plus.CpuBind.Owners.{owner_in, IsConsistent, cpu_bind_alloc-IsConsistent}
use task_spooler_plus.CpuBind.Free.{cpu_bind_free-IsConsistent}
use task_spooler_plus.CpuBind.Restore.{
  cpu_bind_init-IsConsistent, cpu_bind_alloc_init-IsConsistent, cpu_bind_claim-IsConsistent,
}
use task_spooler_plus.CpuBind.Sorting.{IsSorted}
use task_spooler_plus.CpuBind.Conserve.{cpus_in, all_cores, total_free-cpus_in}
use task_spooler_plus.Defrag.{cpu_bind_defrag, sort_allocs, split_perfect}
use task_spooler_plus.Defrag.Sort.{cpus_of}
use task_spooler_plus.Defrag.Home.{Alike}
use task_spooler_plus.Defrag.Whole.{cpu_bind_defrag-IsConsistent}

abbrev group_table : ℕ → CoreGroup
group_table zero = record { node_id = 0; os_cpus = 0 ∷ 1 ∷ 2 ∷ [] }
group_table (suc zero) = record { node_id = 0; os_cpus = 3 ∷ 4 ∷ [] }
group_table (suc (suc g)) = record { node_id = 1; os_cpus = 5 ∷ 6 ∷ [] }

abbrev node_table : ℕ → NodeInfo
node_table zero = record { node_id = 0; group_ids = 0 ∷ 1 ∷ [] }
node_table (suc j) = record { node_id = 1; group_ids = 2 ∷ [] }

abbrev machine : Topology
machine = record {
  num_nodes = 2;
  num_groups = 3;
  max_cores_per_group = 3;
  max_os_cpu = 7;
  groups = group_table;
  nodes = node_table;
}

below_two {ℓ} : (P : ℕ → Type ℓ) → P 0 → P 1 → (j : ℕ) → j < 2 → P j
below_two P p q zero h = p
below_two P p q (suc zero) h = q
below_two P p q (suc (suc j)) h = absurd (omega arith)

below_three {ℓ} : (P : ℕ → Type ℓ) → P 0 → P 1 → P 2 → (g : ℕ) → g < 3 → P g
below_three P p q r zero h = p
below_three P p q r (suc zero) h = q
below_three P p q r (suc (suc zero)) h = r
below_three P p q r (suc (suc (suc g))) h = absurd (omega arith)

home : ℕ → ℕ
home c = if ltb c 3 then 0 else if ltb c 5 then 1 else 2

home-group : (g c : ℕ) → g < 3 → mem c (group_table g).os_cpus ≡ true → home c ≡ g
unfolding home mem
home-group zero c h m = ground arith
home-group (suc zero) c h m = ground arith
home-group (suc (suc zero)) c h m = ground arith
home-group (suc (suc (suc g))) c h m = absurd (omega arith)

groups_of_nodes :
    (g j : ℕ) → g < 3 → j < 2 → mem g (node_table j).group_ids ≡ ((group_table g).node_id == j)
unfolding mem
groups_of_nodes g j lt lj =
    below_two (λ j. mem g (node_table j).group_ids ≡ ((group_table g).node_id == j))
      (below_three (λ g. mem g (0 ∷ 1 ∷ []) ≡ ((group_table g).node_id == 0)) refl refl refl g lt)
      (below_three (λ g. mem g (2 ∷ []) ≡ ((group_table g).node_id == 1)) refl refl refl g lt) j lj

machine-IsTopology : IsTopology machine
unfolding mem
machine-IsTopology = record {
  cpus_distinct = below_three _ (refl, (refl, (refl, tt))) (refl, (refl, tt)) (refl, (refl, tt));
  cpus_apart = λ g h c lt k m n. sym (home-group g c lt m) ∙ home-group h c k n;
  cpus_below = below_three _ (omega arith) (omega arith) (omega arith);
  ids_distinct = below_two _ (refl, (refl, tt)) (refl, tt);
  ids_iff = λ g j. groups_of_nodes g j;
  ids_below = below_two _ (omega arith) (omega arith);
  node_ids = below_two _ refl refl;
  group_nodes = below_three _ (omega arith) (omega arith) (omega arith);
}

-- Job 7 is about to be started, with two processors.
abbrev started : Binding
started = cpu_bind_alloc_init (pos 7) (pos 2) (cpu_bind_init machine)

started-IsConsistent : IsConsistent machine started
started-IsConsistent =
    cpu_bind_alloc_init-IsConsistent machine-IsTopology (pos 7) (pos 2) _
      (cpu_bind_init-IsConsistent machine-IsTopology) (λ e. cc)

choose_group-IsChoice_example :
    IsChoice
      (λ g. pos (g + 1))
      (0 ∷ 1 ∷ 2 ∷ [])
      2
      (choose_group (λ g. pos (g + 1)) (0 ∷ 1 ∷ 2 ∷ []) 2)
choose_group-IsChoice_example = choose_group-IsChoice (λ g. pos (g + 1)) (0 ∷ 1 ∷ 2 ∷ []) 1

cpu_bind_alloc-IsConsistent_example :
    (b' : Binding) × (a' : CpuAlloc) × (cpu_bind_alloc machine started 0 (pos 2) ≡ ok (some b'))
    × IsConsistent machine b'
    × (b'.cpu_allocs ≡ set started.cpu_allocs 0 a')
    × Took started.cpu_owner b'.cpu_owner (pos 7) a'.os_cpus
    × (length a'.os_cpus ≡ 2)
    × IsSorted a'.os_cpus
    × (a'.jobid ≡ pos 7)
    × (a'.slots ≡ pos 2)
    × (a'.error ≡ false)
unfolding cpu_bind_alloc_init cpu_bind_init up_to num_cores sum ◌+ℤ◌
cpu_bind_alloc-IsConsistent_example =
    cpu_bind_alloc-IsConsistent machine-IsTopology started 0 2 (new_alloc (pos 7) (pos 2))
      started-IsConsistent refl refl (λ e. cc) (λ c lt e. cc) refl (omega arith) (omega arith)
      (omega arith)

-- Three processors do not fit in the allocation of two.
started-overflows : cpu_bind_alloc machine started 0 (pos 3) ≡ died
unfolding cpu_bind_alloc_init cpu_bind_init up_to num_cores sum ◌+ℤ◌ ◌-ℤ◌ neg cpu_bind_alloc
    alloc_cpus alloc_path best_node alloc_from_groups alloc_loop take_from_group take_cores
    choose_group or_most_free best_fit better_fit cpu_bind_post_alloc sort_cpus insert_cpu
started-overflows = refl

cpu_bind_claim-IsConsistent_example :
    (b' : Binding) × (cpu_bind_claim machine (pos 8) (4 ∷ 3 ∷ []) 1 (pos 0) (cpu_bind_init machine)
      ≡ some b')
    × IsConsistent machine b'
    × ((x : ℕ)
        → b'.cpu_owner x
          ≡ (if mem x (4 ∷ 3 ∷ []) then pos 8 else (cpu_bind_init machine).cpu_owner x))
unfolding cpu_bind_init mem
cpu_bind_claim-IsConsistent_example =
    cpu_bind_claim-IsConsistent machine-IsTopology (pos 8) 4 (3 ∷ []) 1 (pos 0)
      (cpu_bind_init machine) (cpu_bind_init-IsConsistent machine-IsTopology) (λ e. cc)
      (refl, (refl, tt)) ((1, omega arith, refl), ((1, omega arith, refl), tt)) (refl, (refl, tt))

-- After a restart job 8 has the processors 3 and 4.
abbrev restored : Binding
restored =
    let b = take_over machine (pos 8) (sort_cpus (4 ∷ 3 ∷ [])) (cpu_bind_init machine) in
    record b {
      cpu_allocs = b.cpu_allocs ++ claimed (pos 8) (sort_cpus (4 ∷ 3 ∷ [])) 1 (pos 0) ∷ [];
    }

restored-claimed :
    cpu_bind_claim machine (pos 8) (4 ∷ 3 ∷ []) 1 (pos 0) (cpu_bind_init machine) ≡ some restored
unfolding cpu_bind_claim
restored-claimed = refl

some_same {ℓ} : {A : Type ℓ} {a b : A} → some a ≡ some b → a ≡ b
some_same h = cc

restored-IsConsistent : IsConsistent machine restored
unfolding cpu_bind_init mem
restored-IsConsistent =
    let (b', e, k, o) =
      cpu_bind_claim-IsConsistent machine-IsTopology (pos 8) 4 (3 ∷ []) 1 (pos 0)
        (cpu_bind_init machine) (cpu_bind_init-IsConsistent machine-IsTopology) (λ e. cc)
        (refl, (refl, tt)) ((1, omega arith, refl), ((1, omega arith, refl), tt))
        (refl, (refl, tt)) in
    subst (IsConsistent machine) (some_same (sym e ∙ restored-claimed)) k

cpu_bind_free-IsConsistent_example :
    (b' : Binding) × (cpu_bind_free machine 0 restored ≡ ok b')
    × IsConsistent machine b'
    × (b'.cpu_allocs ≡ remove_at restored.cpu_allocs 0)
    × ((c : ℕ)
        → b'.cpu_owner c ≡ (
            if mem c (claimed (pos 8) (sort_cpus (4 ∷ 3 ∷ [])) 1 (pos 0)).os_cpus
            then pos 0
            else restored.cpu_owner c))
unfolding cpu_bind_init take_over add_free enter_groups enter_group up_to sort_cpus insert_cpu
cpu_bind_free-IsConsistent_example =
    cpu_bind_free-IsConsistent machine-IsTopology restored 0
      (claimed (pos 8) (sort_cpus (4 ∷ 3 ∷ [])) 1 (pos 0)) restored-IsConsistent refl

cpu_bind_init-IsConsistent_example : IsConsistent machine (cpu_bind_init machine)
cpu_bind_init-IsConsistent_example = cpu_bind_init-IsConsistent machine-IsTopology

-- Job 9 has the processors 2 and 3, each of a group that has free ones.
abbrev spread_alloc : CpuAlloc
spread_alloc = record (claimed (pos 9) (sort_cpus (3 ∷ 2 ∷ [])) 1 (pos 0)) { quality = 2 }

abbrev spread : Binding
spread = record (take_over machine (pos 9) (sort_cpus (3 ∷ 2 ∷ [])) (cpu_bind_init machine)) {
  cpu_allocs = spread_alloc ∷ [];
}

spread-IsConsistent : IsConsistent machine spread
unfolding cpu_bind_init cpu_bind_claim mem owner_in take_over add_free sort_cpus insert_cpu
    enter_groups up_to enter_group
spread-IsConsistent =
    let (b', e, k, o) =
      cpu_bind_claim-IsConsistent machine-IsTopology (pos 9) 3 (2 ∷ []) 1 (pos 0)
        (cpu_bind_init machine) (cpu_bind_init-IsConsistent machine-IsTopology) (λ e. cc)
        (refl, (refl, tt)) ((1, omega arith, refl), ((0, omega arith, refl), tt))
        (refl, (refl, tt)) in
    let c = subst (IsConsistent machine) (some_same (sym e)) k in
    record {
      is_counted = record {
        group_count = c.is_counted.group_count;
        node_count = c.is_counted.node_count;
      };
      owners = c.owners;
      separate = c.separate;
      placed = c.placed;
      homes = c.homes;
    }

cpu_bind_defrag-IsConsistent_example :
    (b' : Binding) × (ys : List CpuAlloc) × (cpu_bind_defrag machine spread ≡ ok (some b'))
    × IsConsistent machine b'
    × (b'.cpu_allocs ≡ (split_perfect (sort_allocs spread.cpu_allocs)).0 ++ ys)
    × Alike (split_perfect (sort_allocs spread.cpu_allocs)).1 ys
    × ((id : ℤ) → cpus_of id b'.cpu_allocs ≡ cpus_of id spread.cpu_allocs)
cpu_bind_defrag-IsConsistent_example =
    cpu_bind_defrag-IsConsistent machine-IsTopology spread spread-IsConsistent

total_free-cpus_in_example :
    total_free machine spread +ℤ pos (cpus_in spread.cpu_allocs)
    ≡ pos (all_cores machine (up_to machine.num_nodes))
total_free-cpus_in_example = total_free-cpus_in machine-IsTopology spread spread-IsConsistent
