-- ===== src/CpuBind/Alloc.antt =====
-- cpu_bind.c: take_from_group and alloc_from_groups take as many processors as they are asked for, and
-- keep the counts.
use task_spooler_plus.Base.{
  ℕ, ℤ, pos, ◌<◌, List, [], ◌++◌, true, Bool-cases, inl, inr, ◌≡◌, refl, ◌≢◌, All, length,
  All-append, arith, int_laws, parts,
}
use task_spooler_plus.CpuBind.{Topology, CpuAlloc, Binding, take_cores, take_from_group}
use task_spooler_plus.CpuBind.Took.{mem, Took, mem-append, All-of_mem, mem_of_All, Distinct-append}
use task_spooler_plus.CpuBind.Take.{
  take_cores-outside, take_cores-inside, take_cores-Took, take_cores-count,
}
use task_spooler_plus.CpuBind.Counts.{IsTopology, Counted, free_at-moved, moved-IsCounted}

pub Took-trans :
    {o o1 o2 : ℕ → ℤ} {id : ℤ} (cs ds : List ℕ)
    → id ≢ pos 0
    → Took o o1 id cs
    → Took o1 o2 id ds
    → Took o o2 id (cs ++ ds)
Took-trans {o} {o1} {o2} {id} cs ds busy p q = record {
  were_free = All-append _ cs ds p.were_free (
      mem_of_All _ ds λ c m. ground (
        arith,
        p.owner_is c,
        All-of_mem (λ x. o1 x ≡ pos 0) ds c q.were_free m,
        λ (e : mem c cs ≡ true). All-of_mem (λ x. o x ≡ pos 0) cs c p.were_free e,
      ));
  are_distinct = Distinct-append cs ds p.are_distinct q.are_distinct (
      mem_of_All _ cs λ c m. elim (Bool-cases (mem c ds)) [
        | inl e ↦ ground (arith, p.owner_is c, All-of_mem (λ x. o1 x ≡ pos 0) ds c q.were_free e, m)
        | inr e ↦ e
      ]);
  owner_is = λ c. ground (arith, mem-append c cs ds, p.owner_is c, q.owner_is c);
}

pub Took-nil : (o : ℕ → ℤ) (id : ℤ) → Took o o id []
unfolding mem
Took-nil o id = record { were_free = tt; are_distinct = tt; owner_is = λ c. refl }

module _ (t : Topology) where
  abbrev pub Placed : ℕ → Type 0
  Placed c = (g : ℕ) × (g < t.num_groups) × (mem c (t.groups g).os_cpus ≡ true)

  -- `n` processors were taken for an allocation, the counts are right, and nothing else changed.
  pub record Allotted (b : Binding) (a : CpuAlloc) (n : ℕ) (b' : Binding) (a' : CpuAlloc)
      : Type 0 where
    pub taken : List ℕ
    pub is_counted : Counted t b'
    pub took : Took b.cpu_owner b'.cpu_owner a.jobid taken
    pub is_length : length taken ≡ n
    pub are_placed : All Placed taken
    pub only_counts : b' ≡ record b {
      cpu_owner = b'.cpu_owner;
      group_free = b'.group_free;
      node_free = b'.node_free;
    }
    pub only_cpus : a' ≡ record a { os_cpus = a.os_cpus ++ taken; quality = a'.quality }

module _ {t : Topology} (top : IsTopology t) where
  pub take_from_group-Allotted :
      (b : Binding) (g n : ℕ) (a : CpuAlloc)
      → g < t.num_groups
      → a.jobid ≢ pos 0
      → Counted t b
      → Allotted t b a
          (take_from_group t b g n a).2
          (take_from_group t b g n a).0
          (take_from_group t b g n a).1
  unfolding take_from_group
  take_from_group-Allotted b g n a lt busy ok =
      let cs = (t.groups g).os_cpus in
      let d = top.cpus_distinct g lt in
      let j = (t.groups g).node_id in
      let lj = top.group_nodes g lt in
      let o' = (take_cores cs n a.jobid b.cpu_owner).0 in
      let p = take_cores-Took a.jobid busy cs n b.cpu_owner d in
      let k = take_cores-count a.jobid busy cs n b.cpu_owner d in
      record {
        taken = (take_cores cs n a.jobid b.cpu_owner).1;
        is_counted =
            moved-IsCounted top lt b.cpu_owner o'
              (take_cores-outside a.jobid busy cs n b.cpu_owner d) b.group_free b.node_free _ _ ok
              (omega (int_laws, parts (ok.group_count g lt), k))
              (omega (
                int_laws,
                parts (ok.node_count j lj),
                k,
                free_at-moved top lt b.cpu_owner o'
                    (take_cores-outside a.jobid busy cs n b.cpu_owner d) (t.nodes j).group_ids
                    (top.ids_below j lj) (top.ids_distinct j lj)
                    (ground (arith, top.ids_iff g j lt lj)),
              ));
        took = p;
        is_length = refl;
        are_placed =
            mem_of_All _ _ λ c m. (g, lt, take_cores-inside a.jobid busy cs n b.cpu_owner c m);
        only_counts = refl;
        only_cpus = refl;
      }
