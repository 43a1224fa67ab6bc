-- ===== src/CpuBind/Serve.antt =====
-- cpu_bind.c cpu_bind_alloc: an allocation that is served, from the choice of the path to the checks
-- after it.
use task_spooler_plus.Base.{
  ℕ, zero, suc, ℤ, pos, negsuc, ◌+◌, ◌<◌, ◌≤ℤ◌, leb_ℤ, ltb_ℤ, ltb, ◌==◌, ==ℤ_refl, ==ℤ_iff, ◌&&◌,
  List, [], ◌∷◌, Option, none, some, true, false, if◌then◌else◌, ◌≡◌, refl, ◌≢◌, ◌∙◌, ap, All,
  length, Bool-cases, Option-cases, inl, inr, arith, parts, ◌^◌,
}
use task_spooler_plus.CpuBind.{
  Topology, CpuAlloc, Binding, all_owned, count_owned, best_node, alloc_path, total_free, up_to,
  cross_node_merge, alloc_from_groups,
}
use task_spooler_plus.CpuBind.Took.{mem, Distinct, Took, mem_of_All, ==_iff}
use task_spooler_plus.CpuBind.Counts.{IsTopology, Counted}
use task_spooler_plus.CpuBind.Alloc.{Placed, Allotted}
use task_spooler_plus.CpuBind.Groups.{alloc_from_groups-Allotted}
use task_spooler_plus.CpuBind.Nodes.{cross_node_merge-Allotted}
use task_spooler_plus.CpuBind.Sorting.{IsSorted, mem-up_to}

-- How many numbers below a bound are in a list.
unfoldable pub count_below : List ℕ → ℕ → ℕ
count_below cs zero = 0
count_below cs (suc n) = (if mem n cs then 1 else 0) + count_below cs n

count_below-nil : (n : ℕ) → count_below [] n ≡ 0
unfolding count_below mem
count_below-nil zero = refl
count_below-nil (suc n) = omega (arith, count_below-nil n)

count_below-cons :
    (c : ℕ) (cs : List ℕ) (n : ℕ)
    → mem c cs ≡ false
    → count_below (c ∷ cs) n ≡ (if ltb c n then 1 else 0) + count_below cs n
unfolding count_below mem
count_below-cons c cs zero m = ground arith
count_below-cons c cs (suc n) m = elim (Bool-cases (c == n)) [
  | inl e ↦
      let q = ==_iff c n e in ground (arith, count_below-cons c cs n m, q, m, ap (λ x. mem x cs) q)
  | inr e ↦ ground (arith, count_below-cons c cs n m, e)
]

pub count_below-length :
    (cs : List ℕ) (n : ℕ) → Distinct cs → All (λ c. c < n) cs → count_below cs n ≡ length cs
count_below-length [] n d h = count_below-nil n
count_below-length (c ∷ cs) n d h =
    ground (arith, count_below-cons c cs n d.0, count_below-length cs n d.1 h.1, h.0)

-- A job that had no processor has just those that were taken for it.
pub count_owned-Took :
    {o o' : ℕ → ℤ} {id : ℤ} {cs : List ℕ} (n : ℕ)
    → Took o o' id cs
    → ((c : ℕ) → c < n → o c ≢ id)
    → count_owned o' id n ≡ count_below cs n
unfolding count_owned count_below
count_owned-Took zero p h = refl
count_owned-Took {o} {o'} {id} {cs} (suc n) p h =
    let r = count_owned-Took n p (λ c lt. h c (omega (arith, lt))) in
    elim (Bool-cases (mem n cs)) [
      | inl e ↦ ground (arith, r, e, p.owner_is n, ==ℤ_refl id)
      | inr e ↦ ground (arith, r, e, p.owner_is n, h n (omega arith), ==ℤ_iff (o n) id)
    ]

pub all_owned-Took :
    {o o' : ℕ → ℤ} {id : ℤ} {cs : List ℕ}
    → Took o o' id cs
    → (ds : List ℕ) → All (λ c. mem c cs ≡ true) ds
    → all_owned o' id ds ≡ true
unfolding all_owned
all_owned-Took p [] h = refl
all_owned-Took {id = id} p (d ∷ ds) h =
    ground (arith, p.owner_is d, h.0, all_owned-Took p ds h.1, ==ℤ_refl id)

best_node-fits :
    (t : Topology) (free : ℕ → ℤ) (n : ℕ) (is : List ℕ) (best : Option ℕ) (m : ℤ) (i : ℕ)
    → All (λ j. j < t.num_nodes) is
    → ((j : ℕ) → best ≡ some j → (j < t.num_nodes) × (pos n ≤ℤ free j))
    → best_node t free n is best m ≡ some i
    → (i < t.num_nodes) × (pos n ≤ℤ free i)
unfolding best_node
best_node-fits t free n [] best m i h k e = k i e
best_node-fits t free n (j ∷ is) best m i h k e =
    elim (Bool-cases (leb_ℤ (pos n) (free j) && ltb_ℤ m (free j))) [
      | inl q ↦
          best_node-fits t free n is (some j) (free j) i h.1
            (λ x eq. let z : j ≡ x = cc in rw (← z) (h.0, ground arith)) (rw q at e)
      | inr q ↦ best_node-fits t free n is best m i h.1 k (rw q at e)
    ]

-- `n` processors were given to a job that had none, in order. The counts are right, and nothing else
-- changed.
pub record Served (t : Topology) (b : Binding) (a : CpuAlloc) (n : ℕ) (b' : Binding) (a' : CpuAlloc)
    : Type 0 where
  pub is_counted : Counted t b'
  pub took : Took b.cpu_owner b'.cpu_owner a.jobid a'.os_cpus
  pub is_length : length a'.os_cpus ≡ n
  pub is_sorted : IsSorted a'.os_cpus
  pub are_placed : All (Placed t) a'.os_cpus
  pub same_job : a'.jobid ≡ a.jobid
  pub same_slots : a'.slots ≡ a.slots
  pub only_counts :
      b'
      ≡ record b { cpu_owner = b'.cpu_owner; group_free = b'.group_free; node_free = b'.node_free }

module _ {t : Topology} (top : IsTopology t) where
  -- From an allocation without processors, what alloc_path gives is like a list of taken ones.
  pub record IsPathResult (b : Binding) (a : CpuAlloc) (n : ℕ) (b' : Binding) (a' : CpuAlloc)
      : Type 0 where
    pub before : CpuAlloc
    pub after : CpuAlloc
    pub allotted : Allotted t b before n b' after
    pub none_before : before.os_cpus ≡ []
    pub job_before : before.jobid ≡ a.jobid
    pub error_before : before.error ≡ a.error
    pub slots_before : before.slots ≡ a.slots
    pub cpus_after : a'.os_cpus ≡ after.os_cpus
    pub job_after : a'.jobid ≡ after.jobid
    pub error_after : a'.error ≡ after.error
    pub slots_after : a'.slots ≡ after.slots

  alloc_path-none :
      (n : ℕ) (b : Binding) (a : CpuAlloc)
      → best_node t b.node_free n (up_to t.num_nodes) none (negsuc 0) ≡ none
      → alloc_path t n b a ≡ cross_node_merge t n b a
  unfolding alloc_path
  alloc_path-none n b a e = rw (e, alloc_path)

  alloc_path-some :
      (n i : ℕ) (b b' : Binding) (a a' : CpuAlloc)
      → best_node t b.node_free n (up_to t.num_nodes) none (negsuc 0) ≡ some i
      → alloc_from_groups t n (t.nodes i).group_ids b a ≡ some (b', a')
      → alloc_path t n b a
        ≡ some (
          b',
          record a' { primary_node = pos (t.nodes i).node_id; mem_nodes = 2 ^ (t.nodes i).node_id },
        )
  unfolding alloc_path
  alloc_path-some n i b b' a a' e q = rw (e, alloc_path) (rw q)

  pub alloc_path-result :
      (n : ℕ) (b : Binding) (a : CpuAlloc)
      → a.jobid ≢ pos 0
      → a.os_cpus ≡ []
      → Counted t b
      → 0 < n
      → pos n ≤ℤ total_free t b
      → (b' : Binding) × (a' : CpuAlloc) × (alloc_path t n b a ≡ some (b', a'))
        × IsPathResult b a n b' a'
  alloc_path-result n b a busy empty ok p h =
      elim (Option-cases (best_node t b.node_free n (up_to t.num_nodes) none (negsuc 0))) [
        | inl e ↦
            let (main, mems, b', a', q, r) = cross_node_merge-Allotted top n b a busy ok p h in
            (
              b',
              a',
              alloc_path-none n b a e ∙ q,
              record {
                before = record a { primary_node = main; mem_nodes = mems };
                after = a';
                allotted = r;
                none_before = empty;
                job_before = refl;
                error_before = refl;
                slots_before = refl;
                cpus_after = refl;
                job_after = refl;
                error_after = refl;
                slots_after = refl;
              },
            )
        | inr (i, e) ↦
            let f =
              best_node-fits t b.node_free n (up_to t.num_nodes) none (negsuc 0) i
                (mem_of_All _ _ λ j m. ground (arith, m, mem-up_to j t.num_nodes)) (λ j k. cc) e in
            let (b', a', q, r) =
              alloc_from_groups-Allotted top (t.nodes i).group_ids (top.ids_below i (f.0))
                (top.ids_distinct i (f.0)) n b a busy ok
                (omega (arith, f.1, parts (ok.node_count i (f.0)))) in
            (
              b',
              _,
              alloc_path-some n i b b' a a' e q,
              record {
                before = a;
                after = a';
                allotted = r;
                none_before = empty;
                job_before = refl;
                error_before = refl;
                slots_before = refl;
                cpus_after = refl;
                job_after = refl;
                error_after = refl;
                slots_after = refl;
              },
            )
      ]
