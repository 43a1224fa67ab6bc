-- ===== src/CpuBind/Result.antt =====
-- cpu_bind.c cpu_bind_alloc: what an allocation is given.
use task_spooler_plus.Base.{
  ℕ, ℤ, pos, ◌<◌, ◌<ℤ◌, ◌≤ℤ◌, leb_ℤ, ltb_ℤ, ◌||◌, List, [], some, true, false, ◌≡◌, refl, ◌≢◌, ◌∙◌,
  ap, sym, All, length, inl, inr, ◌⊎◌, arith, subst,
}
use task_spooler_plus.CpuBind.{
  Topology, CpuAlloc, Binding, alloc_path, alloc_cpus, total_free, failed, cpu_bind_post_alloc,
  sort_cpus,
}
use task_spooler_plus.CpuBind.Took.{Took, mem_of_All, All-of_mem}
use task_spooler_plus.CpuBind.Counts.{IsTopology, Counted}
use task_spooler_plus.CpuBind.Alloc.{Placed}
use task_spooler_plus.CpuBind.Serve.{
  Served, IsPathResult, alloc_path-result, count_below-length, count_owned-Took, all_owned-Took,
}
use task_spooler_plus.CpuBind.Sorting.{
  mem-sort_cpus, Distinct-sort_cpus, length-sort_cpus, All-sort_cpus, sort_cpus-IsSorted,
}

pub Took-sort :
    {o o' : ℕ → ℤ} {id : ℤ} (cs : List ℕ) → Took o o' id cs → Took o o' id (sort_cpus cs)
Took-sort cs p = record {
  were_free = All-sort_cpus _ cs p.were_free;
  are_distinct = Distinct-sort_cpus cs p.are_distinct;
  owner_is = λ c. rw (mem-sort_cpus c cs) (p.owner_is c);
}

module _ {t : Topology} (top : IsTopology t) where
  Placed-below : (cs : List ℕ) → All (Placed t) cs → All (λ c. c < t.max_os_cpu) cs
  Placed-below cs h = mem_of_All _ cs λ c m.
      let q = All-of_mem (Placed t) cs c h m in
      All-of_mem (λ c. c < t.max_os_cpu) _ c (top.cpus_below (q.0) (q.1)) (q.2)

  -- The checks after an allocation find no error.
  post_alloc-error :
      (b b' : Binding) (a' : CpuAlloc)
      → Took b.cpu_owner b'.cpu_owner a'.jobid a'.os_cpus
      → All (Placed t) a'.os_cpus
      → ((c : ℕ) → c < t.max_os_cpu → b.cpu_owner c ≢ a'.jobid)
      → (cpu_bind_post_alloc t b' a').error ≡ a'.error
  unfolding cpu_bind_post_alloc
  post_alloc-error b b' a' p q h = ground (
    arith,
    all_owned-Took p (sort_cpus a'.os_cpus)
        (mem_of_All _ _ λ c m. sym (mem-sort_cpus c a'.os_cpus) ∙ m),
    count_owned-Took t.max_os_cpu p h,
    count_below-length a'.os_cpus t.max_os_cpu p.are_distinct (Placed-below a'.os_cpus q),
    length-sort_cpus a'.os_cpus,
  )

  post_alloc-cpus :
      (b : Binding) (a : CpuAlloc) → (cpu_bind_post_alloc t b a).os_cpus ≡ sort_cpus a.os_cpus
  unfolding cpu_bind_post_alloc
  post_alloc-cpus b a = refl

  post_alloc-jobid : (b : Binding) (a : CpuAlloc) → (cpu_bind_post_alloc t b a).jobid ≡ a.jobid
  unfolding cpu_bind_post_alloc
  post_alloc-jobid b a = refl

  post_alloc-slots : (b : Binding) (a : CpuAlloc) → (cpu_bind_post_alloc t b a).slots ≡ a.slots
  unfolding cpu_bind_post_alloc
  post_alloc-slots b a = refl

  pub post_alloc-Served :
      (n : ℕ) (b b' : Binding) (a a' : CpuAlloc)
      → IsPathResult top b a n b' a'
      → Served t b a n b' (cpu_bind_post_alloc t b' a')
  post_alloc-Served n b b' a a' r =
      let l = r.allotted in
      let cpus : a'.os_cpus ≡ l.taken = cc in
      let job : a'.jobid ≡ a.jobid = cc in
      let took : Took b.cpu_owner b'.cpu_owner a'.jobid a'.os_cpus =
        rw (job, cpus)
          (subst (λ id. Took b.cpu_owner b'.cpu_owner id l.taken) r.job_before l.took) in
      let placed : All (Placed t) a'.os_cpus = rw cpus l.are_placed in
      let sorted = post_alloc-cpus b' a' in
      record {
        is_counted = l.is_counted;
        took = rw sorted (
            subst (λ id. Took b.cpu_owner b'.cpu_owner id (sort_cpus a'.os_cpus)) job
              (Took-sort a'.os_cpus took));
        is_length = rw sorted (length-sort_cpus a'.os_cpus ∙ ap length cpus ∙ l.is_length);
        is_sorted = rw sorted (sort_cpus-IsSorted a'.os_cpus);
        are_placed = rw sorted (All-sort_cpus _ a'.os_cpus placed);
        same_job = post_alloc-jobid b' a' ∙ job;
        same_slots =
            post_alloc-slots b' a'
            ∙ r.slots_after
            ∙ (ap (λ (x : CpuAlloc). x.slots) l.only_cpus ∙ r.slots_before);
        only_counts = l.only_counts;
      }

  -- The job had no processor, and so the checks find no error.
  path-error :
      (n : ℕ) (b b' : Binding) (a a' : CpuAlloc)
      → IsPathResult top b a n b' a'
      → ((c : ℕ) → c < t.max_os_cpu → b.cpu_owner c ≢ a.jobid)
      → (cpu_bind_post_alloc t b' a').error ≡ a.error
  path-error n b b' a a' r h =
      let l = r.allotted in
      let cpus : a'.os_cpus ≡ l.taken = cc in
      let job : a'.jobid ≡ a.jobid = cc in
      post_alloc-error b b' a'
        (rw (job, cpus)
          (subst (λ id. Took b.cpu_owner b'.cpu_owner id l.taken) r.job_before l.took))
        (rw cpus l.are_placed) (λ c lt. rw job (h c lt))
      ∙ r.error_after
      ∙ (ap (λ (x : CpuAlloc). x.error) l.only_cpus ∙ r.error_before)

  alloc_cpus-path :
      (n : ℕ) (b b' : Binding) (a a' : CpuAlloc)
      → b.disabled ≡ false
      → 0 < n
      → pos n ≤ℤ total_free t b
      → alloc_path t n b (record a { os_cpus = [] }) ≡ some (b', a')
      → alloc_cpus t (pos n) b a ≡ some (b', cpu_bind_post_alloc t b' a')
  unfolding alloc_cpus
  alloc_cpus-path n b b' a a' on p h e =
      let t1 : (b.disabled || leb_ℤ (pos n) (pos 0)) ≡ false = ground arith in
      let t2 : ltb_ℤ (total_free t b) (pos n) ≡ false = ground arith in rw t1 (rw t2 (rw e))

  -- What is asked for is there: an allocation of a job without processors gets it.
  pub alloc_cpus-Served :
      (n : ℕ) (b : Binding) (a : CpuAlloc)
      → Counted t b
      → b.disabled ≡ false
      → a.jobid ≢ pos 0
      → ((c : ℕ) → c < t.max_os_cpu → b.cpu_owner c ≢ a.jobid)
      → 0 < n
      → pos n ≤ℤ total_free t b
      → (b' : Binding) × (a' : CpuAlloc) × (alloc_cpus t (pos n) b a ≡ some (b', a'))
        × Served t b a n b' a'
        × (a'.error ≡ a.error)
  alloc_cpus-Served n b a ok on busy none p h =
      let a0 = record a { os_cpus = [] } in
      let (b', a', e, r) = alloc_path-result top n b a0 busy refl ok p h in
      let s = post_alloc-Served n b b' a0 a' r in
      (
        b',
        cpu_bind_post_alloc t b' a',
        alloc_cpus-path n b b' a a' on p h e,
        record {
          is_counted = s.is_counted;
          took = s.took;
          is_length = s.is_length;
          is_sorted = s.is_sorted;
          are_placed = s.are_placed;
          same_job = s.same_job;
          same_slots = s.same_slots;
          only_counts = s.only_counts;
        },
        path-error n b b' a0 a' r none,
      )

-- When the allocator is off, when no processor is asked for, or when the nodes count fewer free
-- processors than are asked for, the allocation is only marked as an error and nothing else
-- changes.
alloc_cpus-refuses :
    (t : Topology) (n : ℤ) (b : Binding) (a : CpuAlloc)
    → (b.disabled ≡ true) ⊎ ((n ≤ℤ pos 0) ⊎ (total_free t b <ℤ n))
    → alloc_cpus t n b a ≡ some (b, failed a)
unfolding alloc_cpus
alloc_cpus-refuses t n b a (inl e) = rw e
alloc_cpus-refuses t n b a (inr (inl h)) = ground arith
alloc_cpus-refuses t n b a (inr (inr h)) =
    let t2 : ltb_ℤ (total_free t b) n ≡ true = ground arith in rw t2 (ground arith)
