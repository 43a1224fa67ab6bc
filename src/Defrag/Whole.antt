-- ===== src/Defrag/Whole.antt =====
-- cpu_bind.c: the new placing as a whole.
use task_spooler_plus.Base.{
  ℤ, pos, ◌≤◌, List, [], ◌∷◌, ◌++◌, some, ◌≡◌, refl, ◌≢◌, ◌∙◌, ap, sym, subst, map, All, Bool-cases,
  false, if◌then◌else◌, inl, inr, arith,
}
use task_spooler_plus.Outcome.{ok, ◌>>=◌}
use task_spooler_plus.CpuBind.{Topology, CpuAlloc, Binding, up_to}
use task_spooler_plus.CpuBind.Counts.{IsTopology}
use task_spooler_plus.CpuBind.Owners.{Separate, IsConsistent}
use task_spooler_plus.CpuBind.Conserve.{cpus_in, all_cores, cpus_in-all_cores}
use task_spooler_plus.Defrag.{
  cleared, sort_allocs, split_perfect, reset, retake_all, place_others, cpu_bind_defrag,
  cpu_bind_defrag_start,
}
use task_spooler_plus.Defrag.Sort.{
  cpus_of, cpus_of-sort, All-sort_allocs, sort_allocs-Separate, split_perfect-append,
}
use task_spooler_plus.Defrag.Keep.{with_allocs, reset-IsConsistent, retake_all-IsConsistent}
use task_spooler_plus.Defrag.Home.{allocs_of, Alike, place_home-IsConsistent}
use task_spooler_plus.Defrag.Across.{cpus_in-append, place_across-IsConsistent}

abbrev Busy : List CpuAlloc → Type 0
Busy = All (λ (a : CpuAlloc). a.jobid ≢ pos 0)

Separate-Busy : (ls : List CpuAlloc) → Separate ls → Busy ls
Separate-Busy [] s = tt
Separate-Busy (a ∷ ls) s = (s.0, Separate-Busy ls s.3)

All-suffix {ℓ} :
    (P : CpuAlloc → Type ℓ) (xs ys : List CpuAlloc) → All P (xs ++ ys) → All P xs × All P ys
All-suffix P [] ys h = (tt, h)
All-suffix P (x ∷ xs) ys h = let r = All-suffix P xs ys h.1 in ((h.0, r.0), r.1)

Alike-refl : (xs : List CpuAlloc) → Alike xs xs
Alike-refl [] = tt
Alike-refl (x ∷ xs) = (refl, refl, Alike-refl xs)

Alike-trans : (xs ys zs : List CpuAlloc) → Alike xs ys → Alike ys zs → Alike xs zs
Alike-trans [] [] [] p q = tt
Alike-trans [] [] (z ∷ zs) p q = elim q [ ]
Alike-trans [] (y ∷ ys) zs p q = elim p [ ]
Alike-trans (x ∷ xs) [] zs p q = elim p [ ]
Alike-trans (x ∷ xs) (y ∷ ys) [] p q = elim q [ ]
Alike-trans (x ∷ xs) (y ∷ ys) (z ∷ zs) p q = (q.0 ∙ p.0, q.1 ∙ p.1, Alike-trans xs ys zs p.2 q.2)

Alike-Busy : (xs ys : List CpuAlloc) → Alike xs ys → Busy xs → Busy ys
Alike-Busy [] [] p h = tt
Alike-Busy [] (y ∷ ys) p h = elim p [ ]
Alike-Busy (x ∷ xs) [] p h = elim p [ ]
Alike-Busy (x ∷ xs) (y ∷ ys) p h = (rw (p.0) (h.0), Alike-Busy xs ys p.2 h.1)

Alike-cpus_in : (xs ys : List CpuAlloc) → Alike xs ys → cpus_in ys ≡ cpus_in xs
unfolding cpus_in
Alike-cpus_in [] [] p = refl
Alike-cpus_in [] (y ∷ ys) p = elim p [ ]
Alike-cpus_in (x ∷ xs) [] p = elim p [ ]
Alike-cpus_in (x ∷ xs) (y ∷ ys) p = omega (arith, p.1, Alike-cpus_in xs ys p.2)

-- What the jobs have depends on the parts alone.
cpus_of-Alike :
    (id : ℤ) (ks xs ys : List CpuAlloc)
    → Alike xs ys
    → cpus_of id (ks ++ ys) ≡ cpus_of id (ks ++ xs)
unfolding cpus_of
cpus_of-Alike id [] [] [] p = refl
cpus_of-Alike id [] [] (y ∷ ys) p = elim p [ ]
cpus_of-Alike id [] (x ∷ xs) [] p = elim p [ ]
cpus_of-Alike id [] (x ∷ xs) (y ∷ ys) p = rw (p.0, p.1, cpus_of-Alike id [] xs ys p.2)
cpus_of-Alike id (k ∷ ks) xs ys p = rw (cpus_of-Alike id ks xs ys p)

module _ {t : Topology} (top : IsTopology t) where
  sorted-IsConsistent :
      (b : Binding) → IsConsistent t b → IsConsistent t (with_allocs b (sort_allocs b.cpu_allocs))
  sorted-IsConsistent b k =
      let s = sort_allocs-Separate b.cpu_allocs k.separate in
      record {
        is_counted = k.is_counted;
        owners = λ c. k.owners c ∙ sym (s.1 c);
        separate = s.0;
        placed = All-sort_allocs _ b.cpu_allocs k.placed;
        homes = k.homes;
      }

  place_others-IsConsistent :
      (ks os : List CpuAlloc) (b : Binding)
      → IsConsistent t (with_allocs b (ks ++ map cleared os))
      → Busy os
      → cpus_in (ks ++ os) ≤ all_cores t (up_to t.num_nodes)
      → (b' : Binding) × (ys : List CpuAlloc) × (place_others t ks os b ≡ some b')
        × IsConsistent t b'
        × (b'.cpu_allocs ≡ ks ++ ys)
        × Alike os ys
  unfolding place_others
  place_others-IsConsistent ks os b k busy room =
      let (b1, ms, e, k1, l) = place_home-IsConsistent top ks os b k busy in
      let (b2, ys, e2, k2, l2) =
        place_across-IsConsistent top ks ms b1 k1 (Alike-Busy os _ l busy) (
          omega (
            arith,
            room,
            cpus_in-append ks os,
            cpus_in-append ks (allocs_of ms),
            Alike-cpus_in os (allocs_of ms) l,
          )) in
      (
        with_allocs b2 (ks ++ ys),
        ys,
        rw (place_others, e) (rw e2),
        k2,
        refl,
        Alike-trans os _ ys l l2,
      )

  defrag_others :
      (ks os : List CpuAlloc) (b : Binding)
      → IsConsistent t (with_allocs b (ks ++ os))
      → (b' : Binding) × (ys : List CpuAlloc) × ((retake_all t ks (reset t b) >>= λ r.
            ok (place_others t ks os r))
          ≡ ok (some b'))
        × IsConsistent t b'
        × (b'.cpu_allocs ≡ ks ++ ys)
        × Alike os ys
  defrag_others ks os b k =
      let busy = Separate-Busy (ks ++ os) k.separate in
      let first = reset-IsConsistent top b (ks ++ os) k.homes busy in
      let (b1, e, k1) =
        retake_all-IsConsistent top [] ks os (reset t b) k.separate (All-suffix _ ks os k.placed).0
          first in
      let (b2, ys, e2, k2, s, l) =
        place_others-IsConsistent ks os b1 k1 (All-suffix _ ks os busy).1
          (cpus_in-all_cores top _ k) in
      (b2, ys, rw e (ap ok e2), k2, s, l)

  defrag_nothing :
      (b : Binding) (ks : List CpuAlloc)
      → split_perfect (sort_allocs b.cpu_allocs) ≡ (ks, [])
      → cpu_bind_defrag t b ≡ ok (some (with_allocs b (sort_allocs b.cpu_allocs)))
  unfolding cpu_bind_defrag
  defrag_nothing b ks e = rw e refl

  defrag_some :
      (b : Binding) (ks os : List CpuAlloc) (o : CpuAlloc)
      → split_perfect (sort_allocs b.cpu_allocs) ≡ (ks, o ∷ os)
      → cpu_bind_defrag t b
        ≡ (retake_all t ks (reset t b) >>= λ r. ok (place_others t ks (o ∷ os) r))
  unfolding cpu_bind_defrag
  defrag_some b ks os o e = rw e (ground arith)

  defrag_parts :
      (b : Binding) (ks os : List CpuAlloc)
      → IsConsistent t b
      → split_perfect (sort_allocs b.cpu_allocs) ≡ (ks, os)
      → ks ++ os ≡ sort_allocs b.cpu_allocs
      → (b' : Binding) × (ys : List CpuAlloc) × (cpu_bind_defrag t b ≡ ok (some b'))
        × IsConsistent t b'
        × (b'.cpu_allocs ≡ ks ++ ys)
        × Alike os ys
  defrag_parts b ks [] k e w = (
    with_allocs b (sort_allocs b.cpu_allocs),
    [],
    defrag_nothing b ks e,
    sorted-IsConsistent b k,
    sym w,
    tt,
  )
  defrag_parts b ks (o ∷ os) k e w =
      let sorted = sorted-IsConsistent b k in
      let (b', ys, q, c, s, l) =
        defrag_others ks (o ∷ os) b
          (subst (λ ls. IsConsistent t (with_allocs b ls)) (sym w) sorted) in
      (b', ys, defrag_some b ks os o e ∙ q, c, s, l)

  -- On a consistent allocator the new placing neither fails nor runs for ever. The allocator is
  -- consistent again, the allocations of quality 0 at the head of the sorted list keep their
  -- processors, each other one is in the same place of the sorted list with its job and as many
  -- processors as before, and so each job has as many processors as before.
  pub cpu_bind_defrag-IsConsistent :
      (b : Binding)
      → IsConsistent t b
      → (b' : Binding) × (ys : List CpuAlloc) × (cpu_bind_defrag t b ≡ ok (some b'))
        × IsConsistent t b'
        × (b'.cpu_allocs ≡ (split_perfect (sort_allocs b.cpu_allocs)).0 ++ ys)
        × Alike (split_perfect (sort_allocs b.cpu_allocs)).1 ys
        × ((id : ℤ) → cpus_of id b'.cpu_allocs ≡ cpus_of id b.cpu_allocs)
  cpu_bind_defrag-IsConsistent b k =
      let sorted = sort_allocs b.cpu_allocs in
      let whole = split_perfect-append sorted in
      let (b', ys, q, c, s, l) = defrag_parts b _ _ k refl whole in
      (
        b',
        ys,
        q,
        c,
        s,
        l,
        λ id.
            ap (cpus_of id) s
            ∙ cpus_of-Alike id _ _ ys l
            ∙ ap (cpus_of id) whole
            ∙ cpus_of-sort id b.cpu_allocs,
      )

  start-on :
      (b : Binding) → b.defrag_disabled ≡ false → cpu_bind_defrag_start t b ≡ cpu_bind_defrag t b
  unfolding cpu_bind_defrag_start
  start-on b e = ap (λ x. if x then ok (some b) else cpu_bind_defrag t b) e

  -- cpu_bind_defrag_start, off or not, keeps the allocator consistent and takes no processor from a job.
  defrag_start-IsConsistent :
      (b : Binding)
      → IsConsistent t b
      → (b' : Binding) × (cpu_bind_defrag_start t b ≡ ok (some b'))
        × IsConsistent t b'
        × ((id : ℤ) → cpus_of id b'.cpu_allocs ≡ cpus_of id b.cpu_allocs)
  unfolding cpu_bind_defrag_start
  defrag_start-IsConsistent b k = elim (Bool-cases b.defrag_disabled) [
    | inl e ↦ (b, rw e refl, k, λ id. refl)
    | inr e ↦
        let (b', ys, q, c, s, l, n) = cpu_bind_defrag-IsConsistent b k in
        (b', start-on b e ∙ q, c, n)
  ]
