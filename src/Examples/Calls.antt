-- ===== src/Examples/Calls.antt =====
-- Single calls of the orchestrator, in the state that the opening of a run reaches.
use batch_processing_kit.Prelude.{
  nat_eq, map, ◌≤◌, ◌≡◌, refl, true, false, [], ◌∷◌, some, String, arith, string_eq, ◌==◌, ◌+◌, not,
  ◌&&◌, if◌then◌else◌, ltb,
}
use batch_processing_kit.Prelude.Dict.{count, contains, lookup, insert, erase, add, keys}
use batch_processing_kit.Endpoint.{manager_name_eq}
use batch_processing_kit.Orchestrator.Hotswap.{
  loaded, hotswap_endpoint_managers, carry_out, release_from, plan, plan_from, plan_endpoint,
  by_endpoint, preserved, surviving, retire, processor_of, checker_of,
}
use batch_processing_kit.Orchestrator.Start.{start_batch-pending}
use batch_processing_kit.System.{stop_named, next, run, created, names, deliver, hand_out}
use batch_processing_kit.Examples.{batch, manager, endpoint, failure, success, item}
use batch_processing_kit.Orchestrator.{
  steal_work, pop_work, push_work, assign, mismatched, is_old, notify_work_success,
  notify_work_failure, requeue, merge, merge_results, del_in_progress, del_in_progress_owner,
  check_completion, drain_queue, drain_rounds, Orchestrator, after, returns, raises, key_error,
  may_retry,
}
use batch_processing_kit.Orchestrator.Batches.{
  submit, receive, is_batch, start_batch, start_requested, reset_results, enqueue_all, enqueue,
  request_stop, cancel_running_batch,
}
use batch_processing_kit.WorkItem.{put, get, effective_priority, files, qsize, empty_queue}
use batch_processing_kit.WorkItem.Heap.{heappush, heappop}
use batch_processing_kit.Prelude.Int.{◌*ℤ◌}
use batch_processing_kit.Prelude.Text.{lower}
use batch_processing_kit.Examples.Runs.{busy, busy-SystemInv, batch-IsDistinct}
use batch_processing_kit.System.Safety.{created-IsIdle}
use batch_processing_kit.WorkItem.Drain.{IsDescending, drain, put_all, put_all-drain}
use batch_processing_kit.Orchestrator.Invariant.{Inv, pending}
use batch_processing_kit.Orchestrator.Steal.{Stolen, steal_work-Stolen, steal_work-pending}
use batch_processing_kit.Orchestrator.Settled.{success-pending, failure-pending}
use batch_processing_kit.Orchestrator.Retries.{failure-retries, attempts_on}
use batch_processing_kit.Orchestrator.Completion.{success-completes, failure-completes, remaining}
use batch_processing_kit.Orchestrator.Requeued.{Swapped, hotswap-requeues}
use batch_processing_kit.Orchestrator.Reports.{is_ignored}
use batch_processing_kit.Orchestrator.Lifecycle.{IsIdle}
use batch_processing_kit.Orchestrator.Hazards.{second_report, stop-in_progress}
use batch_processing_kit.System.Ends.{cancel_running-closes}

abbrev o : Orchestrator
o = busy.orchestrator

live : is_ignored manager o ≡ false
unfolding next created names submit receive deliver hand_out stop_named steal_work pop_work
    push_work assign mismatched is_old notify_work_success notify_work_failure requeue merge
    merge_results del_in_progress del_in_progress_owner check_completion drain_queue drain_rounds
    hotswap_endpoint_managers carry_out release_from plan plan_from plan_endpoint by_endpoint
    preserved surviving retire processor_of checker_of start_batch start_requested reset_results
    enqueue_all enqueue request_stop put get effective_priority heappush heappop contains lookup
    insert erase add ◌*ℤ◌ lower run
live = refl

at_work : contains "b.wav" (keys o.in_progress) ≡ true
unfolding next created names submit receive deliver hand_out stop_named steal_work pop_work
    push_work assign mismatched is_old notify_work_success notify_work_failure requeue merge
    merge_results del_in_progress del_in_progress_owner check_completion drain_queue drain_rounds
    hotswap_endpoint_managers carry_out release_from plan plan_from plan_endpoint by_endpoint
    preserved surviving retire processor_of checker_of start_batch start_requested reset_results
    enqueue_all enqueue request_stop put get effective_priority heappush heappop contains lookup
    insert erase add ◌*ℤ◌ lower run
at_work = refl

owns : lookup "b.wav" o.in_progress_owner ≡ some manager
unfolding next created names submit receive deliver hand_out stop_named steal_work pop_work
    push_work assign mismatched is_old notify_work_success notify_work_failure requeue merge
    merge_results del_in_progress del_in_progress_owner check_completion drain_queue drain_rounds
    hotswap_endpoint_managers carry_out release_from plan plan_from plan_endpoint by_endpoint
    preserved surviving retire processor_of checker_of start_batch start_requested reset_results
    enqueue_all enqueue request_stop put get effective_priority heappush heappop contains lookup
    insert erase add ◌*ℤ◌ lower run
owns = refl

is_running : is_batch o.on_batch_id 7 ≡ true
unfolding next created names submit receive deliver hand_out stop_named steal_work pop_work
    push_work assign mismatched is_old notify_work_success notify_work_failure requeue merge
    merge_results del_in_progress del_in_progress_owner check_completion drain_queue drain_rounds
    hotswap_endpoint_managers carry_out release_from plan plan_from plan_endpoint by_endpoint
    preserved surviving retire processor_of checker_of start_batch start_requested reset_results
    enqueue_all enqueue request_stop put get effective_priority heappush heappop contains lookup
    insert erase add ◌*ℤ◌ lower run
is_running = refl

listed : contains manager.name (names o.endpoint_managers) ≡ true
unfolding next created names submit receive deliver hand_out stop_named steal_work pop_work
    push_work assign mismatched is_old notify_work_success notify_work_failure requeue merge
    merge_results del_in_progress del_in_progress_owner check_completion drain_queue drain_rounds
    hotswap_endpoint_managers carry_out release_from plan plan_from plan_endpoint by_endpoint
    preserved surviving retire processor_of checker_of start_batch start_requested reset_results
    enqueue_all enqueue request_stop put get effective_priority heappush heappop contains lookup
    insert erase add ◌*ℤ◌ lower run
listed = refl

once : count "b.wav" (keys o.in_progress) ≤ 1
unfolding count next created names submit receive deliver hand_out stop_named steal_work pop_work
    push_work assign mismatched is_old notify_work_success notify_work_failure requeue merge
    merge_results del_in_progress del_in_progress_owner check_completion drain_queue drain_rounds
    hotswap_endpoint_managers carry_out release_from plan plan_from plan_endpoint by_endpoint
    preserved surviving retire processor_of checker_of start_batch start_requested reset_results
    enqueue_all enqueue request_stop put get effective_priority heappush heappop contains lookup
    insert erase add ◌*ℤ◌ lower run
once = omega arith

steal_work-Stolen_example : Stolen o manager (steal_work manager o)
steal_work-Stolen_example = steal_work-Stolen o manager busy-SystemInv.inv

steal_work-pending_example : pending "a.wav" (after (steal_work manager o)) ≡ pending "a.wav" o
steal_work-pending_example = steal_work-pending o manager "a.wav" busy-SystemInv.inv

success-pending_example :
    pending "b.wav" (after (notify_work_success "b.wav" manager (success "b.wav") o)) + 1
    ≡ pending "b.wav" o
success-pending_example =
    success-pending "b.wav" manager (success "b.wav") o live at_work busy-SystemInv.inv "b.wav"

failure-pending_example :
    pending "a.wav" (after (notify_work_failure "b.wav" manager (failure "b.wav" 1) o)) + 0
    ≡ pending "a.wav" o
failure-pending_example =
    failure-pending "b.wav" manager (failure "b.wav" 1) o live at_work busy-SystemInv.inv "a.wav"

failure-retries_example :
    (count "b.wav"
        (files (after (notify_work_failure "b.wav" manager (failure "b.wav" 1) o)).file_queue)
      ≡ (if ltb (1 + attempts_on "b.wav" o) 10 then 1 else 0) + count "b.wav" (files o.file_queue))
    × (attempts_on "b.wav" (after (notify_work_failure "b.wav" manager (failure "b.wav" 1) o))
        ≡ 1 + attempts_on "b.wav" o)
failure-retries_example =
    failure-retries "b.wav" manager (failure "b.wav" 1) o live at_work busy-SystemInv.inv

success-completes_example :
    (after (notify_work_success "b.wav" manager (success "b.wav") o)).batch_completion
    ≡ (if remaining o == 1 then true else o.batch_completion)
success-completes_example =
    success-completes "b.wav" manager (success "b.wav") o live at_work busy-SystemInv.inv

failure-completes_example :
    (after (notify_work_failure "b.wav" manager (failure "b.wav" 10) o)).batch_completion ≡ (
      if remaining o == 1
        && not (may_retry (failure "b.wav" 10) (merge "b.wav" (failure "b.wav" 10) o))
      then true
      else o.batch_completion)
failure-completes_example =
    failure-completes "b.wav" manager (failure "b.wav" 10) o live at_work busy-SystemInv.inv

hotswap-requeues_example :
    (pending "b.wav" (after (hotswap_endpoint_managers (loaded (("beta", endpoint) ∷ [])) o))
      ≡ pending "b.wav" o)
    × Swapped
        (("beta", endpoint) ∷ [])
        "b.wav"
        manager
        o
        (after (hotswap_endpoint_managers (loaded (("beta", endpoint) ∷ [])) o))
hotswap-requeues_example =
    hotswap-requeues (("beta", endpoint) ∷ []) o "b.wav" manager busy-SystemInv.inv owns

cancel_running-closes_example :
    (cancel_running_batch 7 o ≡ returns true (after (cancel_running_batch 7 o)))
    × IsIdle (after (cancel_running_batch 7 o))
    × ((after (cancel_running_batch 7 o)).batch_completion ≡ true)
    × (is_ignored manager (after (cancel_running_batch 7 o)) ≡ true)
cancel_running-closes_example =
    cancel_running-closes 7 o manager busy-SystemInv.inv is_running listed

start_batch-pending_example :
    (start_batch (some batch) (created true)
      ≡ returns true (after (start_batch (some batch) (created true))))
    × Inv (after (start_batch (some batch) (created true)))
    × (pending "a.wav" (after (start_batch (some batch) (created true))) ≡ 1)
unfolding created count
start_batch-pending_example =
    start_batch-pending batch (created true) "a.wav" refl (created-IsIdle true) batch-IsDistinct

second_report_example :
    (x : Orchestrator) × (notify_work_success "b.wav" manager
        (success "b.wav")
        (after (notify_work_success "b.wav" manager (success "b.wav") o))
      ≡ raises key_error x)
second_report_example =
    second_report "b.wav" manager manager (success "b.wav") (success "b.wav") o
      busy-SystemInv.inv.owned once live live at_work

stop-in_progress_example :
    ((after (request_stop o)).batch_completion ≡ true)
    × (qsize (after (request_stop o)).file_queue ≡ 0)
    × ((after (request_stop o)).in_progress ≡ o.in_progress)
stop-in_progress_example = stop-in_progress o busy-SystemInv.inv

put_all-drain_example :
    IsDescending (drain 2 (put_all (item "a.wav" 1 ∷ item "b.wav" 2 ∷ []) empty_queue))
    × ((f : String)
        → count f (
            map
              (λ w. w.filepath)
              (drain 2 (put_all (item "a.wav" 1 ∷ item "b.wav" 2 ∷ []) empty_queue)))
          ≡ count f ("a.wav" ∷ "b.wav" ∷ []))
put_all-drain_example = put_all-drain (item "a.wav" 1 ∷ item "b.wav" 2 ∷ [])
