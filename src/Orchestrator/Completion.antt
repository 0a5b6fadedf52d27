-- ===== src/Orchestrator/Completion.antt =====
-- batchkit/orchestrator.py: the completion event after a report.
use batch_processing_kit.Prelude.{
  ℕ, suc, ◌+◌, ◌≡◌, inl, inr, true, false, not, ◌&&◌, List, [], ◌∷◌, String, if◌then◌else◌, arith,
  length, ◌==◌, nat_eq, string_eq, Eq, Bool-cases,
}
use batch_processing_kit.Prelude.Dict.{contains, contains-lookup, erase, keys}
use batch_processing_kit.WorkItem.{WorkItemResult}
use batch_processing_kit.Endpoint.{Manager}
use batch_processing_kit.Orchestrator.{
  Orchestrator, after, notify_work_success, notify_work_failure, check_completion, merge_results,
  merge, may_retry, push_work,
}
use batch_processing_kit.Orchestrator.Invariant.{Inv}
use batch_processing_kit.Orchestrator.Reports.{is_ignored, success_settles, failure_settles}

length-erase {ℓ κ} :
    {K : Type ℓ} {V : Type κ} ⦃e : Eq K⦄ (k : K) (d : List (K × V))
    → contains k (keys d) ≡ true
    → length d ≡ suc (length (erase k d))
unfolding erase contains
length-erase k [] h = absurd (cc)
length-erase k ((j, w) ∷ d) h = ground (arith, length-erase k d)

-- How much work is left, queued or in progress.
abbrev pub remaining : Orchestrator → ℕ
remaining o = o.file_queue_size + length o.in_progress

-- A success that is not ignored, on a file in progress, completes the batch if one item remained
-- before it, and otherwise leaves the mark of completion as it was.
pub success-completes :
    (f : String) (m : Manager) (r : WorkItemResult) (o : Orchestrator)
    → is_ignored m o ≡ false
    → contains f (keys o.in_progress) ≡ true
    → Inv o
    → (after (notify_work_success f m r o)).batch_completion
      ≡ (if remaining o == 1 then true else o.batch_completion)
unfolding check_completion merge_results
success-completes f m r o live busy v =
    rw (success_settles f m r o live busy v.owned)
      (ground (arith, length-erase f o.in_progress busy))

-- A failure that is not ignored, on a file in progress, completes the batch if one item remained
-- before it and the result may not be retried, and otherwise leaves the mark of completion.
pub failure-completes :
    (f : String) (m : Manager) (r : WorkItemResult) (o : Orchestrator)
    → is_ignored m o ≡ false
    → contains f (keys o.in_progress) ≡ true
    → Inv o
    → (after (notify_work_failure f m r o)).batch_completion
      ≡ (if remaining o == 1 && not (may_retry r (merge f r o)) then true else o.batch_completion)
unfolding check_completion merge_results push_work
failure-completes f m r o live busy v =
    let (w, found) = contains-lookup f o.in_progress busy in
    rw (failure_settles f m r o live busy v.owned w found)
      elim (Bool-cases (may_retry r (merge f r o))) [
        | inl again ↦ rw again (ground (arith, length-erase f o.in_progress busy))
        | inr given_up ↦ rw given_up (ground (arith, length-erase f o.in_progress busy))
      ]
