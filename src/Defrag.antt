-- ===== src/Defrag.antt =====
-- cpu_bind.c: the new placing of the allocations in cpu_bind_defrag_run and cpu_bind_defrag_start. The
-- freezing of the jobs and the writes to their control groups, which change no allocation, are left
-- out. The sort moves the allocations to other places of the list.
pub mod Sort
pub mod Keep
pub mod Home
pub mod Across
pub mod Whole
use mathlib.Core.Option
use task_spooler_plus.Base.{
  ℕ, ℤ, pos, negsuc, pos_part, ltb_ℤ, leb_ℤ, ◌==◌, ltb, leb, List, [], ◌∷◌, ◌++◌, Option, none,
  some, Bool, true, false, ◌||◌, ◌&&◌, if◌then◌else◌, length,
}
use task_spooler_plus.Outcome.{Outcome, ok, died, ◌>>=◌}
use task_spooler_plus.CpuBind.{
  Topology, CpuAlloc, Binding, update, alloc_from_groups, cpu_bind_post_alloc, cross_node_merge,
}
use task_spooler_plus.CpuBind.Claim.{num_cores, add_free}

-- qsort with alloc_defrag_cmp.
unfoldable pub comes_first : CpuAlloc → CpuAlloc → Bool
comes_first a b =
    ltb a.quality b.quality
    || ((a.quality == b.quality) && leb (length b.os_cpus) (length a.os_cpus))

unfoldable pub insert_alloc : CpuAlloc → List CpuAlloc → List CpuAlloc
insert_alloc a [] = a ∷ []
insert_alloc a (b ∷ bs) = if comes_first a b then a ∷ b ∷ bs else b ∷ insert_alloc a bs

unfoldable pub sort_allocs : List CpuAlloc → List CpuAlloc
sort_allocs [] = []
sort_allocs (a ∷ as') = insert_alloc a (sort_allocs as')

-- The allocations of quality 0 at the head of the list, which stay, and the rest.
unfoldable pub split_perfect : List CpuAlloc → List CpuAlloc × List CpuAlloc
split_perfect [] = ([], [])
split_perfect (a ∷ ls) = elim (a.quality == 0) [
  | true ↦ let r = split_perfect ls in (a ∷ r.0, r.1)
  | false ↦ ([], a ∷ ls)
]

abbrev pub cleared : CpuAlloc → CpuAlloc
cleared a = record a { os_cpus = []; error = false; quality = 0 }

module _ (t : Topology) where
  unfoldable pub reset : Binding → Binding
  reset b = record b {
    cpu_owner = λ c. pos 0;
    group_free = λ g. pos (length (t.groups g).os_cpus);
    node_free = λ i. pos (num_cores t (t.nodes i).group_ids);
  }

  -- The processors of an allocation that stays. The source does not test the group.
  unfoldable pub retake : ℤ → List ℕ → Binding → Outcome Binding
  retake id [] b = ok b
  retake id (c ∷ cs) b =
      let owned = record b { cpu_owner = update b.cpu_owner c id } in
      let rest = retake id cs (add_free t (negsuc 0) (pos_part (b.cpu_to_group c)) owned) in
      if ltb_ℤ (b.cpu_to_group c) (pos 0) then died else rest

  unfoldable pub retake_all : List CpuAlloc → Binding → Outcome Binding
  retake_all [] b = ok b
  retake_all (a ∷ ls) b = retake a.jobid a.os_cpus b >>= λ b'. retake_all ls b'

  unfoldable pub fits_home : Binding → CpuAlloc → Bool
  fits_home b a =
      leb_ℤ (pos 0) a.primary_node
      && ltb_ℤ a.primary_node (pos t.num_nodes)
      && leb_ℤ (pos (length a.os_cpus)) (b.node_free (pos_part a.primary_node))

  -- An allocation on its main node again.
  unfoldable pub move_home : Binding → CpuAlloc → Option (Binding × CpuAlloc)
  move_home b a =
      Option.map (λ (r : Binding × CpuAlloc). (r.0, cpu_bind_post_alloc t (r.0) (r.1)))
        (alloc_from_groups t (length a.os_cpus) (t.nodes (pos_part a.primary_node)).group_ids b
          (cleared a))

  -- An allocation over several nodes, which keeps its main node and its bitmap.
  unfoldable pub move_across : Binding → CpuAlloc → Option (Binding × CpuAlloc)
  move_across b a =
      Option.map
        (λ (r : Binding × CpuAlloc). (
          r.0,
          cpu_bind_post_alloc t (r.0)
              (record (r.1) { primary_node = a.primary_node; mem_nodes = a.mem_nodes }),
        ))
        (cross_node_merge t (length a.os_cpus) b (cleared a))

  -- The first loop. The mark of an allocation says that it was skipped.
  unfoldable pub place_home : List CpuAlloc → Binding → Option (Binding × List (CpuAlloc × Bool))
  place_home [] b = some (b, [])
  place_home (a ∷ ls) b = elim (fits_home b a) [
    | false ↦
        Option.map (λ (r : Binding × List (CpuAlloc × Bool)). (r.0, (a, true) ∷ r.1))
          (place_home ls b)
    | true ↦ elim (move_home b a) [
      | none ↦ none
      | some (b', a') ↦
          Option.map (λ (r : Binding × List (CpuAlloc × Bool)). (r.0, (a', false) ∷ r.1))
            (place_home ls b')
    ]
  ]

  -- The second loop, for those that were skipped.
  unfoldable pub place_across : List (CpuAlloc × Bool) → Binding → Option (Binding × List CpuAlloc)
  place_across [] b = some (b, [])
  place_across ((a, false) ∷ ls) b =
      Option.map (λ (r : Binding × List CpuAlloc). (r.0, a ∷ r.1)) (place_across ls b)
  place_across ((a, true) ∷ ls) b = elim (move_across b a) [
    | none ↦ none
    | some (b', a') ↦
        Option.map (λ (r : Binding × List CpuAlloc). (r.0, a' ∷ r.1)) (place_across ls b')
  ]

  unfoldable pub place_others : List CpuAlloc → List CpuAlloc → Binding → Option Binding
  place_others kept others b = elim (place_home others b) [
    | none ↦ none
    | some (b', marked) ↦
        Option.map (λ (r : Binding × List CpuAlloc). record (r.0) { cpu_allocs = kept ++ r.1 })
          (place_across marked b')
  ]

  -- `none` means that a loop of alloc_from_groups does not end.
  unfoldable pub cpu_bind_defrag : Binding → Outcome (Option Binding)
  cpu_bind_defrag b =
      let sorted_allocs = sort_allocs b.cpu_allocs in
      let (kept, others) = split_perfect sorted_allocs in
      if length others == 0
      then ok (some (record b { cpu_allocs = sorted_allocs }))
      else retake_all kept (reset b) >>= λ b'. ok (place_others kept others b')

  -- Whether it is off is also what the returned number says.
  unfoldable pub cpu_bind_defrag_start : Binding → Outcome (Option Binding)
  cpu_bind_defrag_start b = if b.defrag_disabled then ok (some b) else cpu_bind_defrag b
