-- ===== src/Orchestrator/Hazards.antt =====
-- Behaviour of batchkit/orchestrator.py that its comments or its callers do not expect.
use batch_processing_kit.Prelude.{◌≤◌, ◌≡◌, refl, true, false, String, string_eq, ap, ◌∙◌}
use batch_processing_kit.Prelude.Dict.{contains, erase-absent, keys, count}
use batch_processing_kit.WorkItem.{WorkItemResult, qsize}
use batch_processing_kit.Endpoint.{Manager, manager_name_eq}
use batch_processing_kit.Orchestrator.{
  Orchestrator, raises, key_error, after, is_old, merge_results, check_completion,
  notify_work_success,
}
use batch_processing_kit.Orchestrator.Invariant.{Inv}
use batch_processing_kit.Orchestrator.Reports.{
  is_ignored, settle, succeeded, success_settles, success_missing,
}
use batch_processing_kit.Orchestrator.Batches.{request_stop}
use batch_processing_kit.Orchestrator.Start.{request_stop_lem}

-- Two managers report success on one file, and neither is retired or the orchestrator stopped.
-- If the file is in progress, once, with an owner, the second report ends in a KeyError.
pub second_report :
    (f : String) (m k : Manager) (r q : WorkItemResult) (o : Orchestrator)
    → keys o.in_progress_owner ≡ keys o.in_progress
    → count f (keys o.in_progress) ≤ 1
    → is_ignored m o ≡ false
    → is_ignored k o ≡ false
    → contains f (keys o.in_progress) ≡ true
    → (x : Orchestrator) × (notify_work_success f k q (after (notify_work_success f m r o))
        ≡ raises key_error x)
unfolding is_old merge_results check_completion
second_report f m k r q o owned once live_m live_k busy =
    let done = check_completion (merge_results f r (settle f (succeeded o))) in
    let gone : contains f (keys done.in_progress) ≡ false = erase-absent f o.in_progress once in
    (
      succeeded done,
      ap (λ x. notify_work_success f k q (after x)) (success_settles f m r o live_m busy owned)
          ∙ success_missing f k q done live_k gone,
    )

-- From a state with the invariant, a stop marks the batch as complete and empties the queue, but
-- the work in progress stays.
pub stop-in_progress :
    (o : Orchestrator)
    → Inv o
    → ((after (request_stop o)).batch_completion ≡ true)
      × (qsize (after (request_stop o)).file_queue ≡ 0)
      × ((after (request_stop o)).in_progress ≡ o.in_progress)
stop-in_progress o v = let (d, e, x) = request_stop_lem o v in rw e (refl, x.empty, rw x.only_queue)
