-- ===== src/CpuBind.antt =====
-- cpu_bind.c: the allocator of processors. topology.h is generated for a machine, so the topology is
-- an argument. Its groups and nodes are arrays of structs; their fields free_count, which alone
-- change, are arrays of the state. The processors of a group are the first num_cores of its os_cpus.
-- An allocation is its place in cpu_allocs, and its count is the length of its os_cpus.
pub mod Claim
pub mod Took
pub mod Take
pub mod Counts
pub mod Choice
pub mod Alloc
pub mod Groups
pub mod Sorting
pub mod Nodes
pub mod Serve
pub mod Result
pub mod Owners
pub mod Release
pub mod Free
pub mod Restore
pub mod Stray
pub mod Conserve
use Prim.Native.Nat.{bit_or}
use mathlib.Core.Option
use task_spooler_plus.Base.{
  ℕ, zero, suc, ℤ, pos, negsuc, ◌+◌, ◌-◌, ◌^◌, ◌%◌, ◌+ℤ◌, ◌-ℤ◌, ltb_ℤ, leb_ℤ, ◌==ℤ◌, ◌==◌, ltb, leb,
  pos_part, List, [], ◌∷◌, ◌++◌, Option, none, some, Bool, true, false, ◌||◌, ◌&&◌, if◌then◌else◌,
  get_elem?, set, length, sum,
}
use task_spooler_plus.Outcome.{Outcome, ok, died}

pub record CoreGroup : Type 0 where
  pub node_id : ℕ
  pub os_cpus : List ℕ

pub record NodeInfo : Type 0 where
  pub node_id : ℕ
  pub group_ids : List ℕ

pub record Topology : Type 0 where
  pub num_nodes : ℕ
  pub num_groups : ℕ
  pub max_cores_per_group : ℕ
  pub max_os_cpu : ℕ
  pub groups : ℕ → CoreGroup
  pub nodes : ℕ → NodeInfo

pub record CpuAlloc : Type 0 where
  pub primary_node : ℤ
  pub mem_nodes : ℕ
  pub slots : ℤ
  pub jobid : ℤ
  pub error : Bool
  pub quality : ℕ
  pub os_cpus : List ℕ

pub record Binding : Type 0 where
  pub cpu_owner : ℕ → ℤ
  pub cpu_to_group : ℕ → ℤ
  pub group_free : ℕ → ℤ
  pub node_free : ℕ → ℤ
  pub cpu_allocs : List CpuAlloc
  pub disabled : Bool
  pub defrag_disabled : Bool

module _ {ℓ} {A : Type ℓ} where
  abbrev pub update : (ℕ → A) → ℕ → A → ℕ → A
  update f i v j = if j == i then v else f j

-- 0, 1, …, n - 1.
unfoldable pub up_to : ℕ → List ℕ
up_to zero = []
up_to (suc n) = up_to n ++ n ∷ []

-- The loop of take_from_group over the processors of a group, with the number that it may take yet.
unfoldable pub take_cores : List ℕ → ℕ → ℤ → (ℕ → ℤ) → (ℕ → ℤ) × List ℕ
take_cores [] left id o = (o, [])
take_cores (c ∷ cs) zero id o = (o, [])
take_cores (c ∷ cs) (suc left) id o = elim (o c ==ℤ pos 0) [
  | true ↦ let r = take_cores cs left id (update o c id) in (r.0, c ∷ r.1)
  | false ↦ take_cores cs (suc left) id o
]

-- The test of one group in the best-fit search of alloc_from_groups, with the group found so far and
-- its excess. An excess is below INT_MAX, where the source starts.
unfoldable pub better_fit : (ℕ → ℤ) → ℕ → ℕ → Option (ℕ × ℤ) → Option (ℕ × ℤ)
better_fit free g n none = if leb_ℤ (pos n) (free g) then some (g, free g -ℤ pos n) else none
better_fit free g n (some (k, x)) =
    if leb_ℤ (pos n) (free g) && ltb_ℤ (free g -ℤ pos n) x
    then some (g, free g -ℤ pos n)
    else some (k, x)

unfoldable pub best_fit : (ℕ → ℤ) → List ℕ → ℕ → Option (ℕ × ℤ) → Option (ℕ × ℤ)
best_fit free [] n best = best
best_fit free (g ∷ gs) n best = best_fit free gs n (better_fit free g n best)

-- The search for the group with most free processors.
unfoldable pub most_free : (ℕ → ℤ) → List ℕ → Option ℕ → ℤ → Option ℕ
most_free free [] best max_free = best
most_free free (g ∷ gs) best max_free =
    let more = ltb_ℤ (pos 0) (free g) && ltb_ℤ max_free (free g) in
    most_free free gs (if more then some g else best) (if more then free g else max_free)

unfoldable pub or_most_free : (ℕ → ℤ) → List ℕ → Option (ℕ × ℤ) → Option ℕ
or_most_free free gs (some (g, x)) = some g
or_most_free free gs none = most_free free gs none (negsuc 0)

unfoldable pub choose_group : (ℕ → ℤ) → List ℕ → ℕ → Option ℕ
choose_group free gs n = or_most_free free gs (best_fit free gs n none)

abbrev pub failed : CpuAlloc → CpuAlloc
failed a = record a { error = true }

-- qsort with int_cmp.
unfoldable pub insert_cpu : ℕ → List ℕ → List ℕ
insert_cpu c [] = c ∷ []
insert_cpu c (d ∷ ds) = if leb c d then c ∷ d ∷ ds else d ∷ insert_cpu c ds

unfoldable pub sort_cpus : List ℕ → List ℕ
sort_cpus [] = []
sort_cpus (c ∷ cs) = insert_cpu c (sort_cpus cs)

-- qsort with node_free_desc, nodes with as many free processors in order.
unfoldable pub insert_node : (ℕ → ℤ) → ℕ → List ℕ → List ℕ
insert_node free i [] = i ∷ []
insert_node free i (j ∷ js) =
    if leb_ℤ (free j) (free i) then i ∷ j ∷ js else j ∷ insert_node free i js

unfoldable pub sort_nodes : (ℕ → ℤ) → List ℕ → List ℕ
sort_nodes free [] = []
sort_nodes free (i ∷ is) = insert_node free i (sort_nodes free is)

-- Whether the processors of a list belong to a job.
unfoldable pub all_owned : (ℕ → ℤ) → ℤ → List ℕ → Bool
all_owned o id [] = true
all_owned o id (c ∷ cs) = (o c ==ℤ id) && all_owned o id cs

-- How many of the processors below a bound belong to a job.
unfoldable pub count_owned : (ℕ → ℤ) → ℤ → ℕ → ℕ
count_owned o id zero = 0
count_owned o id (suc n) = (if o n ==ℤ id then 1 else 0) + count_owned o id n

module _ (t : Topology) where
  -- The last part of the result is how many were taken. Whether they fit in the allocation is
  -- tested at the end, in cpu_bind_alloc: within it their number only grows.
  unfoldable pub take_from_group : Binding → ℕ → ℕ → CpuAlloc → Binding × CpuAlloc × ℕ
  take_from_group b g n a =
      let r = take_cores (t.groups g).os_cpus n a.jobid b.cpu_owner in
      let j = (t.groups g).node_id in
      let taken = length r.1 in
      let left = b.group_free g -ℤ pos taken in
      (
        record b {
          cpu_owner = r.0;
          group_free = update b.group_free g left;
          node_free = update b.node_free j (b.node_free j -ℤ pos taken);
        },
        record a {
          os_cpus = a.os_cpus ++ r.1;
          quality = if ltb_ℤ (pos 0) left then a.quality + 1 else a.quality;
        },
        taken,
      )

  -- The loop of alloc_from_groups, with fuel for its rounds; `none` means that the fuel ran out. The
  -- number in the result is what is missing.
  unfoldable pub alloc_loop : List ℕ → ℕ → ℕ → Binding → CpuAlloc → Option (Binding × CpuAlloc × ℕ)
  alloc_loop gs zero n b a = none
  alloc_loop gs (suc fuel) zero b a = some (b, a, 0)
  alloc_loop gs (suc fuel) (suc n) b a = elim (choose_group b.group_free gs (suc n)) [
    | none ↦ some (b, failed a, suc n)
    | some g ↦
        let (b', a', got) = take_from_group b g (suc n) a in alloc_loop gs fuel (suc n - got) b' a'
  ]

  unfoldable pub alloc_from_groups : ℕ → List ℕ → Binding → CpuAlloc → Option (Binding × CpuAlloc)
  alloc_from_groups n gs b a =
      Option.map (λ (r : Binding × CpuAlloc × ℕ). (r.0, (if ltb 0 r.2 then failed (r.1) else r.1)))
        (alloc_loop gs (suc n) n b a)

  unfoldable pub cpu_bind_post_alloc : Binding → CpuAlloc → CpuAlloc
  cpu_bind_post_alloc b a =
      let cs = sort_cpus a.os_cpus in
      let fine =
        all_owned b.cpu_owner a.jobid cs
        && (count_owned b.cpu_owner a.jobid t.max_os_cpu == length cs) in
      record a { os_cpus = cs; error = if fine then a.error else true }

  -- How many nodes at the head of a list have just so many free processors.
  unfoldable pub ties : (ℕ → ℤ) → ℤ → List ℕ → ℕ
  ties free best [] = 0
  ties free best (i ∷ is) = elim (free i ==ℤ best) [ true ↦ suc (ties free best is) | false ↦ 0 ]

  -- The main node of an allocation over several nodes. The ids of jobs are positive.
  unfoldable pub main_node : Binding → ℕ → ℤ → List ℕ → ℤ
  main_node b n id [] = negsuc 0
  main_node b n id (i ∷ is) =
      let nt = ties b.node_free (b.node_free i) (i ∷ is) in
      if ltb t.max_cores_per_group n
      then negsuc 0
      else if ltb 1 nt
      then elim (get_elem? (i ∷ is) (pos_part id % nt)) [ none ↦ pos i | some j ↦ pos j ]
      else pos i

  -- The nodes are taken from the largest on, until they have enough: their groups, and the bitmap.
  unfoldable pub collect_nodes : (ℕ → ℤ) → ℤ → List ℕ → ℤ → ℕ → List ℕ × ℕ
  collect_nodes free n [] total bitmap = ([], bitmap)
  collect_nodes free n (i ∷ is) total bitmap = elim (ltb_ℤ total n) [
    | true ↦
        let r = collect_nodes free n is (total +ℤ free i) (bit_or bitmap (2 ^ i)) in
        ((t.nodes i).group_ids ++ r.0, r.1)
    | false ↦ ([], bitmap)
  ]

  unfoldable pub cross_node_merge : ℕ → Binding → CpuAlloc → Option (Binding × CpuAlloc)
  cross_node_merge n b a =
      let order = sort_nodes b.node_free (up_to t.num_nodes) in
      let (gs, bitmap) = collect_nodes b.node_free (pos n) order (pos 0) 0 in
      let a' = record a { primary_node = main_node b n a.jobid order; mem_nodes = bitmap } in
      if length gs == 0 then some (b, a') else alloc_from_groups n gs b a'

  -- The node with most free processors among those that have enough.
  unfoldable pub best_node : (ℕ → ℤ) → ℕ → List ℕ → Option ℕ → ℤ → Option ℕ
  best_node free n [] best max_free = best
  best_node free n (i ∷ is) best max_free =
      let more = leb_ℤ (pos n) (free i) && ltb_ℤ max_free (free i) in
      best_node free n is (if more then some i else best) (if more then free i else max_free)

  abbrev pub total_free : Binding → ℤ
  total_free b = sum b.node_free (up_to t.num_nodes)

  -- The choice of the path in cpu_bind_alloc.
  unfoldable pub alloc_path : ℕ → Binding → CpuAlloc → Option (Binding × CpuAlloc)
  alloc_path n b a = elim (best_node b.node_free n (up_to t.num_nodes) none (negsuc 0)) [
    | none ↦ cross_node_merge n b a
    | some i ↦
        let id = (t.nodes i).node_id in
        Option.map
          (λ (r : Binding × CpuAlloc).
            (r.0, record (r.1) { primary_node = pos id; mem_nodes = 2 ^ id }))
          (alloc_from_groups n (t.nodes i).group_ids b a)
  ]

  -- On an allocation that is not yet among those that are written back.
  unfoldable pub alloc_cpus : ℤ → Binding → CpuAlloc → Option (Binding × CpuAlloc)
  alloc_cpus n b a =
      if b.disabled || leb_ℤ n (pos 0)
      then some (b, failed a)
      else if ltb_ℤ (total_free b) n
      then some (b, failed a)
      else Option.map (λ (r : Binding × CpuAlloc). (r.0, cpu_bind_post_alloc (r.0) (r.1)))
          (alloc_path (pos_part n) b (record a { os_cpus = [] }))

  -- The allocation at a place of cpu_allocs. A place out of bounds is a null pointer. The array
  -- os_cpus has place for `slots` processors: one more would be written past its end.
  unfoldable pub cpu_bind_alloc : Binding → ℕ → ℤ → Outcome (Option Binding)
  cpu_bind_alloc b k n = elim (get_elem? b.cpu_allocs k) [
    | none ↦ died
    | some a ↦ elim (alloc_cpus n b a) [
      | none ↦ ok none
      | some r ↦
          if ltb_ℤ (r.1).slots (pos (length (r.1).os_cpus))
          then died
          else ok (some (record (r.0) { cpu_allocs = set (r.0).cpu_allocs k (r.1) }))
    ]
  ]

abbrev pub new_alloc : ℤ → ℤ → CpuAlloc
new_alloc id max_cpus = record {
  primary_node = pos 0;
  mem_nodes = 0;
  slots = max_cpus;
  jobid = id;
  error = false;
  quality = 0;
  os_cpus = [];
}

-- With memory for the allocation and for the vector. The new allocation is the last.
unfoldable pub cpu_bind_alloc_init : ℤ → ℤ → Binding → Binding
cpu_bind_alloc_init id max_cpus b = record b {
  cpu_allocs = b.cpu_allocs ++ new_alloc id max_cpus ∷ [];
}
