-- ===== src/Orchestrator/Retries.antt =====
-- batchkit/orchestrator.py: the retries of a failed work item, and what is recorded of it.
use batch_processing_kit.Prelude.{
  ℕ, ◌+◌, ◌≡◌, refl, inl, inr, true, false, ◌&&◌, Option, none, some, String, if◌then◌else◌, arith,
  ltb, string_eq, Bool-cases, ◌∙◌,
}
use batch_processing_kit.Prelude.Dict.{
  contains, lookup, lookup-insert, contains-lookup, count, keys, All-lookup,
}
use batch_processing_kit.WorkItem.{WorkItemRequest, WorkItemResult, files}
use batch_processing_kit.WorkItem.Contents.{count-put}
use batch_processing_kit.Endpoint.{Manager}
use batch_processing_kit.Orchestrator.{
  Orchestrator, after, push_work, merge, merged, merge_results, may_retry, check_completion,
  notify_work_failure,
}
use batch_processing_kit.Orchestrator.Invariant.{Inv}
use batch_processing_kit.Orchestrator.Reports.{is_ignored, settle, retried, failed, failure_settles}

-- The attempts that are on record for a file.
unfoldable pub attempts_of : Option (Option WorkItemResult) → ℕ
attempts_of none = 0
attempts_of (some none) = 0
attempts_of (some (some r)) = r.attempts

abbrev pub attempts_on : String → Orchestrator → ℕ
attempts_on f o = attempts_of (lookup f o.work_results)

merged-attempts :
    (p : Option (Option WorkItemResult)) (r : WorkItemResult)
    → (merged p r).attempts ≡ r.attempts + attempts_of p
unfolding attempts_of
merged-attempts none r = omega arith
merged-attempts (some none) r = omega arith
merged-attempts (some (some p)) r = refl

merge-attempts :
    (f : String) (r : WorkItemResult) (o : Orchestrator)
    → (merge f r o).attempts ≡ r.attempts + attempts_on f o
unfolding merge
merge-attempts f r o = merged-attempts (lookup f o.work_results) r

recorded :
    (f : String) (r : WorkItemResult) (o : Orchestrator)
    → lookup f (merge_results f r o).work_results ≡ some (some (merge f r o))
unfolding merge_results
recorded f r o =
    lookup-insert f f (some (merge f r o)) o.work_results ∙ ground (arith, string_eq.beq_iff f f)

module _ (f : String) (m : Manager) (r : WorkItemResult) (o : Orchestrator)
    (live : is_ignored m o ≡ false) (busy : contains f (keys o.in_progress) ≡ true)
    (v : Inv o) where
  retried-results :
      (w : WorkItemRequest)
      → (check_completion (settle f (retried f r o w))).work_results
        ≡ (merge_results f r (failed o)).work_results
  unfolding check_completion push_work merge_results
  retried-results w = elim (Bool-cases (may_retry r (merge f r o))) [
    | inl again ↦ rw again
    | inr given_up ↦ rw given_up
  ]

  -- A failure adds its attempts to those on record for the file.
  failure-attempts :
      attempts_on f (after (notify_work_failure f m r o)) ≡ r.attempts + attempts_on f o
  unfolding attempts_of
  failure-attempts =
      let (w, found) = contains-lookup f o.in_progress busy in
      rw
        (
          failure_settles f m r o live busy v.owned w found,
          retried-results w,
          recorded f r (failed o),
        )
        (merge-attempts f r (failed o))

  retried-queue :
      (w : WorkItemRequest)
      → w.filepath ≡ f
      → count f (files (check_completion (settle f (retried f r o w))).file_queue)
        ≡ (if may_retry r (merge f r o) then 1 else 0) + count f (files o.file_queue)
  unfolding check_completion push_work merge_results
  retried-queue w named = elim (Bool-cases (may_retry r (merge f r o))) [
    | inl again ↦
        rw again (ground (arith, count-put f w o.file_queue, string_eq.beq_iff w.filepath f))
    | inr given_up ↦ rw given_up (omega arith)
  ]

  -- A failure that is not ignored, on a file in progress, puts its file back into the queue exactly
  -- when the result can be retried and the attempts on record are, with the new ones, at most nine.
  -- The attempts on record grow by those of the result.
  pub failure-retries :
      (count f (files (after (notify_work_failure f m r o)).file_queue)
        ≡ (if r.can_retry && ltb (r.attempts + attempts_on f o) 10 then 1 else 0)
          + count f (files o.file_queue))
      × (attempts_on f (after (notify_work_failure f m r o)) ≡ r.attempts + attempts_on f o)
  failure-retries =
      let (w, found) = contains-lookup f o.in_progress busy in
      (
        rw (failure_settles f m r o live busy v.owned w found) (
            retried-queue w (All-lookup (λ e. e.1.filepath ≡ e.0) f w _ v.named found)
            ∙ ground (arith, merge-attempts f r o)),
        failure-attempts,
      )
