-- ===== src/Defrag/Across.antt =====
-- cpu_bind.c: the second loop of the new placing, over several nodes. It finds room, since as many
-- processors are free as the allocations that were skipped had.
use mathlib.Core.Option
use task_spooler_plus.Base.{
  ℕ, zero, suc, Bool, ℤ, pos, ◌+◌, ◌≤◌, ◌≤ℤ◌, List, [], ◌∷◌, ◌++◌, some, true, false, ◌≡◌, refl,
  ◌≢◌, ◌∙◌, ap, sym, subst, All, length, append_assoc, append-nil, arith, int_laws, parts,
}
use task_spooler_plus.CpuBind.{
  Topology, CpuAlloc, Binding, collect_nodes, cross_node_merge, main_node, sort_nodes, up_to,
  total_free,
}
use task_spooler_plus.CpuBind.Took.{mem}
use task_spooler_plus.CpuBind.Counts.{IsTopology, Counted}
use task_spooler_plus.CpuBind.Alloc.{Allotted}
use task_spooler_plus.CpuBind.Owners.{IsConsistent}
use task_spooler_plus.CpuBind.Nodes.{cross_node_merge-Allotted}
use task_spooler_plus.CpuBind.Serve.{Served}
use task_spooler_plus.CpuBind.Result.{post_alloc-Served}
use task_spooler_plus.CpuBind.Conserve.{cpus_in, all_cores, total_free-cpus_in}
use task_spooler_plus.Defrag.{cleared, move_across, place_across}
use task_spooler_plus.Defrag.Keep.{with_allocs}
use task_spooler_plus.Defrag.Home.{allocs_of, views, Alike, Served-replaced}

pub cpus_in-append : (xs ys : List CpuAlloc) → cpus_in (xs ++ ys) ≡ cpus_in xs + cpus_in ys
unfolding cpus_in
cpus_in-append [] ys = omega arith
cpus_in-append (x ∷ xs) ys = omega (arith, cpus_in-append xs ys)

cpus_in-views : (ms : List (CpuAlloc × Bool)) → cpus_in (views ms) ≤ cpus_in (allocs_of ms)
unfolding cpus_in
cpus_in-views [] = omega arith
cpus_in-views ((a, true) ∷ ms) = omega (arith, cpus_in-views ms)
cpus_in-views ((a, false) ∷ ms) = omega (arith, cpus_in-views ms)

module _ {t : Topology} (top : IsTopology t) where
  collect_nodes-zero :
      (free : ℕ → ℤ) (is : List ℕ) → collect_nodes t free (pos 0) is (pos 0) 0 ≡ ([], 0)
  unfolding collect_nodes
  collect_nodes-zero free [] = refl
  collect_nodes-zero free (i ∷ is) = refl

  -- Also for an allocation without processors.
  cross_node_merge-any :
      (n : ℕ) (b : Binding) (a : CpuAlloc)
      → a.jobid ≢ pos 0
      → Counted t b
      → pos n ≤ℤ total_free t b
      → (main : ℤ) × (mems : ℕ) × (b' : Binding) × (a' : CpuAlloc) × (cross_node_merge t n b a
          ≡ some (b', a'))
        × Allotted t b (record a { primary_node = main; mem_nodes = mems }) n b' a'
  unfolding cross_node_merge mem
  cross_node_merge-any zero b a busy ok h =
      let order = sort_nodes b.node_free (up_to t.num_nodes) in
      let main = main_node t b 0 a.jobid order in
      (
        main,
        0,
        b,
        record a { primary_node = main; mem_nodes = 0 },
        rw (collect_nodes-zero b.node_free order) refl,
        record {
          taken = [];
          is_counted = ok;
          took = record { were_free = tt; are_distinct = tt; owner_is = λ c. refl };
          is_length = refl;
          are_placed = tt;
          only_counts = refl;
          only_cpus =
              ap (λ cs. record a { primary_node = main; mem_nodes = 0; os_cpus = cs })
                (sym (append-nil a.os_cpus));
        },
      )
  cross_node_merge-any (suc n) b a busy ok h =
      cross_node_merge-Allotted top (suc n) b a busy ok (omega arith) h

  move_across-Served :
      (b : Binding) (a : CpuAlloc)
      → Counted t b
      → a.jobid ≢ pos 0
      → pos (length a.os_cpus) ≤ℤ total_free t b
      → (b' : Binding) × (a' : CpuAlloc) × (move_across t b a ≡ some (b', a'))
        × Served t b (cleared a) (length a.os_cpus) b' a'
  unfolding move_across
  move_across-Served b a ok busy room =
      let (main, mems, b', a', e, r) =
        cross_node_merge-any (length a.os_cpus) b (cleared a) busy ok room in
      let before = record (cleared a) { primary_node = main; mem_nodes = mems } in
      (
        b',
        _,
        rw e,
        post_alloc-Served top (length a.os_cpus) b b' (cleared a)
            (record a' { primary_node = a.primary_node; mem_nodes = a.mem_nodes })
            record {
              before = before;
              after = a';
              allotted = r;
              none_before = refl;
              job_before = refl;
              error_before = refl;
              slots_before = refl;
              cpus_after = refl;
              job_after = refl;
              error_after = refl;
              slots_after = refl;
            },
      )

  place_across-step :
      (a : CpuAlloc) (ms : List (CpuAlloc × Bool)) (b b' : Binding) (a' : CpuAlloc)
      → move_across t b a ≡ some (b', a')
      → place_across t ((a, true) ∷ ms) b
        ≡ Option.map (λ (r : Binding × List CpuAlloc). (r.0, a' ∷ r.1)) (place_across t ms b')
  unfolding place_across
  place_across-step a ms b b' a' e = rw (e, place_across)

  pub place_across-IsConsistent :
      (xs : List CpuAlloc) (ms : List (CpuAlloc × Bool)) (b : Binding)
      → IsConsistent t (with_allocs b (xs ++ views ms))
      → All (λ (a : CpuAlloc). a.jobid ≢ pos 0) (allocs_of ms)
      → cpus_in (xs ++ allocs_of ms) ≤ all_cores t (up_to t.num_nodes)
      → (b' : Binding) × (ys : List CpuAlloc) × (place_across t ms b ≡ some (b', ys))
        × IsConsistent t (with_allocs b' (xs ++ ys))
        × Alike (allocs_of ms) ys
  unfolding place_across cpus_in
  place_across-IsConsistent xs [] b k h room = (b, [], refl, k, tt)
  place_across-IsConsistent xs ((a, false) ∷ ms) b k h room =
      let one = a ∷ [] in
      let (b', ys, e, r, l) =
        place_across-IsConsistent (xs ++ one) ms b
          (subst (λ zs. IsConsistent t (with_allocs b zs)) (sym (append_assoc xs one (views ms))) k)
          h.1
          (subst (λ zs. cpus_in zs ≤ all_cores t (up_to t.num_nodes))
            (sym (append_assoc xs one (allocs_of ms))) room) in
      (
        b',
        a ∷ ys,
        rw e,
        subst (λ zs. IsConsistent t (with_allocs b' zs)) (append_assoc xs one ys) r,
        (refl, refl, l),
      )
  place_across-IsConsistent xs ((a, true) ∷ ms) b k h room =
      let free : pos (length a.os_cpus) ≤ℤ total_free t b = omega (
        int_laws,
        parts (total_free-cpus_in top _ k),
        room,
        cpus_in-views ms,
        cpus_in-append xs (cleared a ∷ views ms),
        cpus_in-append xs (a ∷ allocs_of ms),
      ) in
      let (b1, a', e, s) = move_across-Served b a k.is_counted h.0 free in
      let one = a' ∷ [] in
      let step = Served-replaced top b b1 xs (views ms) a a' _ k h.0 s in
      let (b', ys, q, r, l) =
        place_across-IsConsistent (xs ++ one) ms b1
          (subst (λ zs. IsConsistent t (with_allocs b1 zs)) (sym (append_assoc xs one (views ms)))
            step)
          h.1
          (omega (
            arith,
            room,
            s.is_length,
            ap cpus_in (append_assoc xs one (allocs_of ms)),
            cpus_in-append xs (a ∷ allocs_of ms),
            cpus_in-append xs (a' ∷ allocs_of ms),
          )) in
      (
        b',
        a' ∷ ys,
        place_across-step a ms b b1 a' e ∙ rw q,
        subst (λ zs. IsConsistent t (with_allocs b' zs)) (append_assoc xs one ys) r,
        (s.same_job, s.is_length, l),
      )
