-- ===== src/Defrag/Keep.antt =====
-- cpu_bind.c: the allocations are placed again one by one, from an allocator where all are free. Those
-- that are not placed yet count as allocations without processors.
use task_spooler_plus.Base.{
  ℕ, ℤ, pos, negsuc, ltb_ℤ, List, [], ◌∷◌, ◌++◌, true, false, if◌then◌else◌, ◌≡◌, refl, ◌≢◌, ◌∙◌,
  ap, sym, subst, map, set, All, All-set, get-middle, length, append_assoc, append-nil, Bool-cases,
  inl, inr, arith,
}
use task_spooler_plus.Outcome.{ok, ◌>>=◌}
use task_spooler_plus.CpuBind.{Topology, CpuAlloc, Binding}
use task_spooler_plus.CpuBind.Claim.{take_over}
use task_spooler_plus.CpuBind.Took.{mem, Distinct, mem_of_All, All-of_mem}
use task_spooler_plus.CpuBind.Counts.{IsTopology, Counted}
use task_spooler_plus.CpuBind.Alloc.{Placed}
use task_spooler_plus.CpuBind.Owners.{owner_in, Separate, IsConsistent, owner_in-set, Separate-set}
use task_spooler_plus.CpuBind.Free.{owner_in-get}
use task_spooler_plus.CpuBind.Release.{Homes, add_free-Homes}
use task_spooler_plus.CpuBind.Restore.{take_over-Changed, count_free-all, free_at-all}
use task_spooler_plus.Defrag.{cleared, reset, retake, retake_all}

-- The allocator with other allocations.
abbrev pub with_allocs : Binding → List CpuAlloc → Binding
with_allocs b ls = record b { cpu_allocs = ls }

set-middle {ℓ} :
    {A : Type ℓ} (xs ys : List A) (x y : A) → set (xs ++ x ∷ ys) (length xs) y ≡ xs ++ y ∷ ys
set-middle [] ys x y = refl
set-middle (z ∷ xs) ys x y = ap (λ zs. z ∷ zs) (set-middle xs ys x y)

middle-busy : (xs ys : List CpuAlloc) (a : CpuAlloc) → Separate (xs ++ a ∷ ys) → a.jobid ≢ pos 0
middle-busy [] ys a s = s.0
middle-busy (x ∷ xs) ys a s = middle-busy xs ys a s.3

middle-Distinct :
    (xs ys : List CpuAlloc) (a : CpuAlloc) → Separate (xs ++ a ∷ ys) → Distinct a.os_cpus
middle-Distinct [] ys a s = s.1
middle-Distinct (x ∷ xs) ys a s = middle-Distinct xs ys a s.3

module _ {t : Topology} (top : IsTopology t) where
  -- An allocation without processors is replaced by one whose processors were free.
  pub replaced-IsConsistent :
      (b b' : Binding) (xs ys : List CpuAlloc) (e a : CpuAlloc)
      → IsConsistent t (with_allocs b (xs ++ e ∷ ys))
      → e.os_cpus ≡ []
      → a.jobid ≢ pos 0
      → Distinct a.os_cpus
      → All (Placed t) a.os_cpus
      → All (λ c. b.cpu_owner c ≡ pos 0) a.os_cpus
      → Counted t b'
      → b'.cpu_to_group ≡ b.cpu_to_group
      → ((c : ℕ) → b'.cpu_owner c ≡ (if mem c a.os_cpus then a.jobid else b.cpu_owner c))
      → IsConsistent t (with_allocs b' (xs ++ a ∷ ys))
  replaced-IsConsistent b b' xs ys e a k empty busy d p f counted groups o =
      let ls = xs ++ e ∷ ys in
      let get = get-middle xs ys e in
      let free =
        mem_of_All (λ x. owner_in ls x ≡ pos 0) a.os_cpus
          λ x m. sym (k.owners x) ∙ All-of_mem (λ y. b.cpu_owner y ≡ pos 0) _ x f m in
      subst (λ zs. IsConsistent t (with_allocs b' zs)) (set-middle xs ys e a)
        record {
          is_counted = counted;
          owners = λ x.
              ground (
                arith,
                o x,
                owner_in-set ls (length xs) e a x k.separate get empty free,
                k.owners x,
              );
          separate = Separate-set ls (length xs) e a k.separate get empty free busy d;
          placed = All-set _ ls (length xs) a k.placed p;
          homes = λ g x lt m. ap (λ (h : ℕ → ℤ). h x) groups ∙ k.homes g x lt m;
        }

  owner_in-cleared : (ls : List CpuAlloc) (c : ℕ) → owner_in (map cleared ls) c ≡ pos 0
  unfolding owner_in mem
  owner_in-cleared [] c = refl
  owner_in-cleared (a ∷ ls) c = owner_in-cleared ls c

  Separate-cleared :
      (ls : List CpuAlloc) → All (λ (a : CpuAlloc). a.jobid ≢ pos 0) ls → Separate (map cleared ls)
  Separate-cleared [] h = tt
  Separate-cleared (a ∷ ls) h = (h.0, tt, tt, Separate-cleared ls h.1)

  Placed-cleared :
      (ls : List CpuAlloc) → All (λ (a : CpuAlloc). All (Placed t) a.os_cpus) (map cleared ls)
  Placed-cleared [] = tt
  Placed-cleared (a ∷ ls) = (tt, Placed-cleared ls)

  -- All is free at first.
  pub reset-IsConsistent :
      (b : Binding) (ls : List CpuAlloc)
      → Homes top b
      → All (λ (a : CpuAlloc). a.jobid ≢ pos 0) ls
      → IsConsistent t (with_allocs (reset t b) (map cleared ls))
  unfolding reset
  reset-IsConsistent b ls h busy = record {
    is_counted = record {
      group_count = λ g lt. ap pos (sym (count_free-all top (t.groups g).os_cpus));
      node_count = λ j lt. ap pos (sym (free_at-all top (t.nodes j).group_ids));
    };
    owners = λ c. sym (owner_in-cleared ls c);
    separate = Separate-cleared ls busy;
    placed = Placed-cleared ls;
    homes = h;
  }

  -- On processors of groups it is the loop of cpu_bind_claim.
  retake-take_over :
      (id : ℤ) (cs : List ℕ) (b : Binding)
      → Homes top b
      → All (Placed t) cs
      → retake t id cs b ≡ ok (take_over t id cs b)
  unfolding retake take_over
  retake-take_over id [] b h p = refl
  retake-take_over id (c ∷ cs) b h p =
      let (g, lt, m) = p.0 in
      let t0 : ltb_ℤ (pos g) (pos 0) ≡ false = ground arith in
      rw (h g c lt m) (rw t0 (retake-take_over id cs _ (add_free-Homes top (negsuc 0) g _ h) p.1))

  -- The processors of an allocation are in no allocation before it.
  owner_in-before :
      (xs ys zs : List CpuAlloc) (a : CpuAlloc) (c : ℕ)
      → Separate (xs ++ a ∷ ys)
      → mem c a.os_cpus ≡ true
      → owner_in (xs ++ map cleared zs) c ≡ pos 0
  unfolding owner_in
  owner_in-before [] ys zs a c s m = owner_in-cleared zs c
  owner_in-before (x ∷ xs) ys zs a c s m = elim (Bool-cases (mem c x.os_cpus)) [
    | inl n ↦ absurd (
        middle-busy xs ys a s.3 (
          sym (owner_in-get (xs ++ a ∷ ys) (length xs) a c s.3 (get-middle xs ys a) m)
          ∙ All-of_mem (λ y. owner_in (xs ++ a ∷ ys) y ≡ pos 0) _ c s.2 n))
    | inr n ↦ rw n (owner_in-before xs ys zs a c s.3 m)
  ]

  pub retake_all-IsConsistent :
      (xs ks zs : List CpuAlloc) (b : Binding)
      → Separate (xs ++ (ks ++ zs))
      → All (λ (a : CpuAlloc). All (Placed t) a.os_cpus) ks
      → IsConsistent t (with_allocs b (xs ++ map cleared (ks ++ zs)))
      → (b' : Binding) × (retake_all t ks b ≡ ok b')
        × IsConsistent t (with_allocs b' ((xs ++ ks) ++ map cleared zs))
  unfolding retake_all
  retake_all-IsConsistent xs [] zs b s p k = (
    b,
    refl,
    subst (λ ys. IsConsistent t (with_allocs b (ys ++ map cleared zs))) (sym (append-nil xs)) k,
  )
  retake_all-IsConsistent xs (a ∷ ks) zs b s p k =
      let b1 = take_over t a.jobid a.os_cpus b in
      let one = a ∷ [] in
      let busy = middle-busy xs (ks ++ zs) a s in
      let d = middle-Distinct xs (ks ++ zs) a s in
      let free =
        mem_of_All (λ c. b.cpu_owner c ≡ pos 0) a.os_cpus
          λ c m. k.owners c ∙ owner_in-before xs (ks ++ zs) (a ∷ (ks ++ zs)) a c s m in
      let ch = take_over-Changed top a.jobid a.os_cpus b busy k.homes k.is_counted d p.0 free in
      let step =
        replaced-IsConsistent b b1 xs (map cleared (ks ++ zs)) (cleared a) a k refl busy d p.0 free
          ch.is_counted ch.same_groups ch.owner_is in
      let (b', e, r) =
        retake_all-IsConsistent (xs ++ one) ks zs b1
          (subst Separate (sym (append_assoc xs one (ks ++ zs))) s) p.1
          (subst (λ ys. IsConsistent t (with_allocs b1 ys))
            (sym (append_assoc xs one (map cleared (ks ++ zs)))) step) in
      (
        b',
        ap (λ m. m >>= λ x. retake_all t ks x) (retake-take_over a.jobid a.os_cpus b k.homes p.0)
            ∙ e,
        subst (λ ys. IsConsistent t (with_allocs b' (ys ++ map cleared zs)))
            (append_assoc xs one ks) r,
      )
