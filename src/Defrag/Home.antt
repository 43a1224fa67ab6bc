-- ===== src/Defrag/Home.antt =====
-- cpu_bind.c: the first loop of the new placing, on the main node of each allocation.
use mathlib.Core.Option
use task_spooler_plus.Base.{
  ℕ, pos, pos_part, ◌<◌, ◌≤ℤ◌, List, [], ◌∷◌, ◌++◌, some, Bool, true, false, if◌then◌else◌, ◌≡◌,
  refl, ◌≢◌, ◌∙◌, ap, sym, subst, map, All, length, append_assoc, Bool-cases, inl, inr, arith,
  parts,
}
use task_spooler_plus.CpuBind.{Topology, CpuAlloc, Binding}
use task_spooler_plus.CpuBind.Took.{mem}
use task_spooler_plus.CpuBind.Counts.{IsTopology, Counted}
use task_spooler_plus.CpuBind.Owners.{IsConsistent}
use task_spooler_plus.CpuBind.Groups.{alloc_from_groups-Allotted}
use task_spooler_plus.CpuBind.Serve.{Served}
use task_spooler_plus.CpuBind.Result.{post_alloc-Served}
use task_spooler_plus.Defrag.{cleared, fits_home, move_home, place_home}
use task_spooler_plus.Defrag.Keep.{with_allocs, replaced-IsConsistent}

-- What an allocation holds: one that was skipped is not placed yet.
abbrev pub view : CpuAlloc × Bool → CpuAlloc
view (a, skipped) = if skipped then cleared a else a

abbrev pub allocs_of : List (CpuAlloc × Bool) → List CpuAlloc
allocs_of [] = []
allocs_of ((a, skipped) ∷ ls) = a ∷ allocs_of ls

abbrev pub views : List (CpuAlloc × Bool) → List CpuAlloc
views [] = []
views (x ∷ ls) = view x ∷ views ls

-- Each allocation has its job and as many processors as before.
abbrev pub Alike : List CpuAlloc → List CpuAlloc → Type 0
Alike [] [] = Unit
Alike [] (b ∷ bs) = ⊥
Alike (a ∷ ls) [] = ⊥
Alike (a ∷ ls) (b ∷ bs) = (b.jobid ≡ a.jobid) × (length b.os_cpus ≡ length a.os_cpus) × Alike ls bs

module _ {t : Topology} (top : IsTopology t) where
  -- The allocation that is served takes the place of the cleared one.
  pub Served-replaced :
      (b b' : Binding) (xs ys : List CpuAlloc) (a a' : CpuAlloc) (n : ℕ)
      → IsConsistent t (with_allocs b (xs ++ cleared a ∷ ys))
      → a.jobid ≢ pos 0
      → Served t b (cleared a) n b' a'
      → IsConsistent t (with_allocs b' (xs ++ a' ∷ ys))
  Served-replaced b b' xs ys a a' n k busy s =
      replaced-IsConsistent top b b' xs ys (cleared a) a' k refl (rw s.same_job busy)
        s.took.are_distinct s.are_placed s.took.were_free s.is_counted
        (ap (λ (x : Binding). x.cpu_to_group) s.only_counts)
        (λ c.
          s.took.owner_is c
          ∙ ap (λ id. if mem c a'.os_cpus then id else b.cpu_owner c) (sym s.same_job))

  move_home-Served :
      (b : Binding) (a : CpuAlloc)
      → Counted t b
      → a.jobid ≢ pos 0
      → fits_home t b a ≡ true
      → (b' : Binding) × (a' : CpuAlloc) × (move_home t b a ≡ some (b', a'))
        × Served t b (cleared a) (length a.os_cpus) b' a'
  unfolding move_home fits_home
  move_home-Served b a ok busy f =
      let j = pos_part a.primary_node in
      let lt : j < t.num_nodes = ground arith in
      let room : pos (length a.os_cpus) ≤ℤ b.node_free j = ground arith in
      let (b', a', e, r) =
        alloc_from_groups-Allotted top (t.nodes j).group_ids (top.ids_below j lt)
          (top.ids_distinct j lt) (length a.os_cpus) b (cleared a) busy ok
          (omega (arith, room, parts (ok.node_count j lt))) in
      (
        b',
        _,
        rw e,
        post_alloc-Served top (length a.os_cpus) b b' (cleared a) a' record {
          before = cleared a;
          after = a';
          allotted = r;
          none_before = refl;
          job_before = refl;
          error_before = refl;
          slots_before = refl;
          cpus_after = refl;
          job_after = refl;
          error_after = refl;
          slots_after = refl;
        },
      )

  place_home-step :
      (a : CpuAlloc) (ls : List CpuAlloc) (b b' : Binding) (a' : CpuAlloc)
      → fits_home t b a ≡ true
      → move_home t b a ≡ some (b', a')
      → place_home t (a ∷ ls) b
        ≡ Option.map
            (λ (r : Binding × List (CpuAlloc × Bool)). (r.0, (a', false) ∷ r.1))
            (place_home t ls b')
  unfolding place_home
  place_home-step a ls b b' a' f e = rw (f, place_home) (rw e)

  place_home-skip :
      (a : CpuAlloc) (ls : List CpuAlloc) (b : Binding)
      → fits_home t b a ≡ false
      → place_home t (a ∷ ls) b
        ≡ Option.map
            (λ (r : Binding × List (CpuAlloc × Bool)). (r.0, (a, true) ∷ r.1))
            (place_home t ls b)
  unfolding place_home
  place_home-skip a ls b f = rw (f, place_home)

  pub place_home-IsConsistent :
      (xs ls : List CpuAlloc) (b : Binding)
      → IsConsistent t (with_allocs b (xs ++ map cleared ls))
      → All (λ (a : CpuAlloc). a.jobid ≢ pos 0) ls
      → (b' : Binding) × (ms : List (CpuAlloc × Bool)) × (place_home t ls b ≡ some (b', ms))
        × IsConsistent t (with_allocs b' (xs ++ views ms))
        × Alike ls (allocs_of ms)
  unfolding place_home
  place_home-IsConsistent xs [] b k h = (b, [], refl, k, tt)
  place_home-IsConsistent xs (a ∷ ls) b k h = elim (Bool-cases (fits_home t b a)) [
    | inl f ↦
        let (b1, a', e, s) = move_home-Served b a k.is_counted h.0 f in
        let one = Served-replaced b b1 xs (map cleared ls) a a' _ k h.0 s in
        let (b', ms, q, r, l) =
          place_home-IsConsistent (xs ++ a' ∷ []) ls b1
            (subst (λ ys. IsConsistent t (with_allocs b1 ys))
              (sym (append_assoc xs (a' ∷ []) (map cleared ls))) one)
            h.1 in
        (
          b',
          (a', false) ∷ ms,
          place_home-step a ls b b1 a' f e ∙ rw q,
          subst (λ ys. IsConsistent t (with_allocs b' ys)) (append_assoc xs (a' ∷ []) (views ms)) r,
          (s.same_job, s.is_length, l),
        )
    | inr f ↦
        let (b', ms, q, r, l) =
          place_home-IsConsistent (xs ++ cleared a ∷ []) ls b
            (subst (λ ys. IsConsistent t (with_allocs b ys))
              (sym (append_assoc xs (cleared a ∷ []) (map cleared ls))) k)
            h.1 in
        (
          b',
          (a, true) ∷ ms,
          place_home-skip a ls b f ∙ rw q,
          subst (λ ys. IsConsistent t (with_allocs b' ys))
              (append_assoc xs (cleared a ∷ []) (views ms)) r,
          (refl, refl, l),
        )
  ]
