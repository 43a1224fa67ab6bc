-- ===== src/Removal/Answered.antt =====
-- notify.c check_notify_list: at the end of a job every client that waits for it is answered.
use task_spooler_plus.Base.{
  ℕ, ◌≡◌, refl, ap, sym, subst, ◌∙◌, List, [], ◌∷◌, ◌++◌, append_assoc, some, Bool, true, false,
  not, ◌&&◌, ◌==ℤ◌, ==ℤ_iff, Bool-cases, inl, inr, arith,
}
use task_spooler_plus.State.{Job, Server, Notify, Effect, send_waitjob_ok}
use task_spooler_plus.Outcome.{ok}
use task_spooler_plus.Jobs.{find_finished_idx, get_job}
use task_spooler_plus.Notify.{in_notify_list, has_ended, check_notifies, check_notify_list}
use task_spooler_plus.Removal.Waiting.{
  others, answers, OwnSockets, OwnSockets-remove, in_notify_list-append, check_notifies-none,
  others-own, others-other, answers-own, answers-other,
}
use task_spooler_plus.Removal.Answering.{
  stage, all_answered, in_notify_list-cons, check_notifies-step, answered_more, answered_last,
  check_notify_other,
}

module _ (s : Server) (j : Job) (i : ℕ) (found : get_job s j.jobid ≡ some j)
    (ended : has_ended j ≡ true) (place : find_finished_idx s j.jobid ≡ some i) where
  abbrev is_destroyed : List Notify → Bool
  is_destroyed ns = in_notify_list ns j.jobid && not j.should_keep_finished

  -- What the loop gives for the entries `ns`, with `pre` before them.
  abbrev Ends : List Notify → List Notify → List Effect → Type 0
  Ends pre ns out =
      check_notifies ns j.jobid (stage s (pre ++ ns) out)
      ≡ ok (
          all_answered s i (is_destroyed ns) (pre ++ others j.jobid ns)
            (answers j.jobid j.result.errorlevel ns out))

  same_end :
      (b b' : Bool) (ns ns' : List Notify) (out out' : List Effect)
      → b ≡ b'
      → ns ≡ ns'
      → out ≡ out'
      → ok (all_answered s i b ns out) ≡ ok (all_answered s i b' ns' out')
  same_end b b' ns ns' out out' p q r =
      ap (λ x. ok (all_answered s i x ns out)) p
      ∙ (ap (λ x. ok (all_answered s i b' x out)) q ∙ ap (λ x. ok (all_answered s i b' ns' x)) r)

  Ends-other :
      (pre ns : List Notify) (out : List Effect) (n : Notify)
      → (n.jobid ==ℤ j.jobid) ≡ false
      → Ends (pre ++ n ∷ []) ns out
      → Ends pre (n ∷ ns) out
  Ends-other pre ns out n e h =
      let one = n ∷ [] in
      let tail = others j.jobid ns in
      check_notifies-step n ns j.jobid _ _
        (check_notify_other (stage s (pre ++ n ∷ ns) out) j.jobid n e)
      ∙ (ap (λ ms. check_notifies ns j.jobid (stage s ms out)) (sym (append_assoc pre one ns))
          ∙ (h
              ∙ same_end _ _ _ _ _ _ (ground (arith, e, in_notify_list-cons n ns j.jobid))
                  (append_assoc pre one tail
                    ∙ ap (λ ms. pre ++ ms) (sym (others-other n ns j.jobid e)))
                  (sym (answers-other n ns j.jobid j.result.errorlevel out e))))

  Ends-more :
      (pre ns : List Notify) (out : List Effect) (n : Notify)
      → (n.jobid ==ℤ j.jobid) ≡ true
      → OwnSockets (pre ++ n ∷ ns)
      → in_notify_list pre j.jobid ≡ false
      → (not (in_notify_list ns j.jobid) && not j.should_keep_finished) ≡ false
      → Ends pre ns (send_waitjob_ok n.socket j.result.errorlevel ∷ out)
      → Ends pre (n ∷ ns) out
  Ends-more pre ns out n e o p k h =
      let q = (==ℤ_iff n.jobid j.jobid).0 e in
      check_notifies-step n ns j.jobid _ _ (answered_more s pre ns out n j q found ended o p k)
      ∙ (h
          ∙ same_end _ _ _ _ _ _ (ground (arith, e, k, in_notify_list-cons n ns j.jobid))
              (ap (λ ms. pre ++ ms) (sym (others-own n ns j.jobid e)))
              (sym (answers-own n ns j.jobid j.result.errorlevel out e)))

  Ends-last :
      (pre ns : List Notify) (out : List Effect) (n : Notify)
      → (n.jobid ==ℤ j.jobid) ≡ true
      → OwnSockets (pre ++ n ∷ ns)
      → in_notify_list pre j.jobid ≡ false
      → (not (in_notify_list ns j.jobid) && not j.should_keep_finished) ≡ true
      → Ends pre (n ∷ ns) out
  Ends-last pre ns out n e o p k =
      let q = (==ℤ_iff n.jobid j.jobid).0 e in
      let none_left : in_notify_list ns j.jobid ≡ false = ground (arith, k) in
      let x = send_waitjob_ok n.socket j.result.errorlevel in
      let (a, b, c) = check_notifies-none ns j.jobid j.result.errorlevel _ (x ∷ out) none_left in
      check_notifies-step n ns j.jobid _ _
        (answered_last s pre ns out n j i q found ended place o p k)
      ∙ (a
          ∙ same_end true _ _ _ _ _ (ground (arith, e, k, in_notify_list-cons n ns j.jobid))
              (ap (λ ms. pre ++ ms) (sym (others-own n ns j.jobid e ∙ b)))
              (sym (answers-own n ns j.jobid j.result.errorlevel out e ∙ c)))

  Ends-loop :
      (ns pre : List Notify) (out : List Effect)
      → OwnSockets (pre ++ ns)
      → in_notify_list pre j.jobid ≡ false
      → Ends pre ns out
  unfolding others answers check_notifies in_notify_list
  Ends-loop [] pre out o p = refl
  Ends-loop (n ∷ ns) pre out o p = elim (Bool-cases (n.jobid ==ℤ j.jobid)) [
    | inr e ↦ Ends-other pre ns out n e (
        Ends-loop ns (pre ++ n ∷ []) out (subst OwnSockets (sym (append_assoc pre (n ∷ []) ns)) o)
          (in_notify_list-append pre (n ∷ []) j.jobid p ∙ ground (arith, e)))
    | inl e ↦ elim (Bool-cases (not (in_notify_list ns j.jobid) && not j.should_keep_finished)) [
      | inl k ↦ Ends-last pre ns out n e o p k
      | inr k ↦ Ends-more pre ns out n e o p k (Ends-loop ns pre _ (OwnSockets-remove pre ns n o) p)
    ]
  ]

-- When a job has ended and is among the finished jobs, and no client waits twice,
-- check_notify_list does not end the server: each client that waits for the job is sent the error
-- level of its result, in the order in which they came, the others wait on in their order, and the
-- job is taken off the finished jobs just when somebody waited and it is not to be kept.
pub check_notify_list-answers :
    (s : Server) (j : Job) (i : ℕ)
    → get_job s j.jobid ≡ some j
    → has_ended j ≡ true
    → find_finished_idx s j.jobid ≡ some i
    → OwnSockets s.notifies
    → check_notify_list s j.jobid
      ≡ ok (
          all_answered s i
            (in_notify_list s.notifies j.jobid && not j.should_keep_finished)
            (others j.jobid s.notifies)
            (answers j.jobid j.result.errorlevel s.notifies s.out))
unfolding check_notify_list in_notify_list
check_notify_list-answers s j i g e f o = Ends-loop s j i g e f s.notifies [] s.out o refl
