-- ===== src/Examples/Runs.antt =====
-- A run of the system: a hot-swap, a batch of two files, a failure that is retried, a stop.
use batch_processing_kit.Prelude.{
  ◌≤◌, refl, inl, inr, true, List, [], ◌∷◌, String, arith, Bool-cases, subst, string_eq, ◌==◌,
}
use batch_processing_kit.Prelude.Dict.{count, contains, lookup, insert, erase, add}
use batch_processing_kit.Endpoint.{manager_name_eq}
use batch_processing_kit.Orchestrator.Hotswap.{
  loaded, hotswap_endpoint_managers, carry_out, release_from, plan, plan_from, plan_endpoint,
  by_endpoint, preserved, surviving, retire, processor_of, checker_of,
}
use batch_processing_kit.Orchestrator.Start.{batch_files}
use batch_processing_kit.System.{
  stop_named, System, Event, steals, reports, swaps, starts, stops, submits, receives, IsRun,
  IsQuietRun, Quiet, next, run, created, names, deliver, hand_out,
}
use batch_processing_kit.System.Held.{SystemInv}
use batch_processing_kit.System.Safety.{start, run-IsQuietRun, run-SystemInv}
use batch_processing_kit.Examples.{item, batch, manager, endpoint, failure, success}
use batch_processing_kit.Orchestrator.{
  steal_work, pop_work, push_work, assign, mismatched, is_old, notify_work_success,
  notify_work_failure, requeue, merge, merge_results, del_in_progress, del_in_progress_owner,
  check_completion, drain_queue, drain_rounds,
}
use batch_processing_kit.Orchestrator.Batches.{
  submit, receive, start_batch, start_requested, reset_results, enqueue_all, enqueue, request_stop,
}
use batch_processing_kit.WorkItem.{put, get, effective_priority}
use batch_processing_kit.WorkItem.Heap.{heappush, heappop}
use batch_processing_kit.Prelude.Int.{◌*ℤ◌}
use batch_processing_kit.Prelude.Text.{lower}

-- The manager has the second file, which has the higher priority, and the first one is queued.
abbrev pub opening : List Event
opening =
    submits batch
    ∷ receives
    ∷ swaps (loaded (("alpha", endpoint) ∷ []))
    ∷ starts batch
    ∷ steals manager
    ∷ []

abbrev pub busy : System
busy = run opening (start true)

-- The same start, a failure that is retried, two more steals, a success and a stop.
abbrev pub events : List Event
events =
    submits batch
    ∷ receives
    ∷ swaps (loaded (("alpha", endpoint) ∷ []))
    ∷ starts batch
    ∷ steals manager
    ∷ reports 0 (failure "b.wav" 1)
    ∷ steals manager
    ∷ steals manager
    ∷ reports 0 (success "a.wav")
    ∷ stops
    ∷ []

pub batch-IsDistinct : (f : String) → count f (batch_files batch) ≤ 1
unfolding count
batch-IsDistinct f = elim (Bool-cases ("a.wav" == f)) [
  | inl first ↦
      subst (λ g. count g (batch_files batch) ≤ 1) ((string_eq.beq_iff "a.wav" f).0 first)
        (omega arith)
  | inr other ↦ rw other (ground arith)
]

pub events-IsRun : IsRun events (start true)
unfolding next created names submit receive deliver hand_out stop_named steal_work pop_work
    push_work assign mismatched is_old notify_work_success notify_work_failure requeue merge
    merge_results del_in_progress del_in_progress_owner check_completion drain_queue drain_rounds
    hotswap_endpoint_managers carry_out release_from plan plan_from plan_endpoint by_endpoint
    preserved surviving retire processor_of checker_of start_batch start_requested reset_results
    enqueue_all enqueue request_stop put get effective_priority heappush heappop contains lookup
    insert erase add ◌*ℤ◌ lower
events-IsRun = (
  tt,
  (
    tt,
    (
      tt,
      (
        (inr refl, batch-IsDistinct),
        ((refl, inr refl), (tt, ((refl, inr refl), ((refl, inr refl), (tt, (tt, tt)))))),
      ),
    ),
  ),
)

pub opening-IsRun : IsRun opening (start true)
unfolding next created names submit receive deliver hand_out stop_named steal_work pop_work
    push_work assign mismatched is_old notify_work_success notify_work_failure requeue merge
    merge_results del_in_progress del_in_progress_owner check_completion drain_queue drain_rounds
    hotswap_endpoint_managers carry_out release_from plan plan_from plan_endpoint by_endpoint
    preserved surviving retire processor_of checker_of start_batch start_requested reset_results
    enqueue_all enqueue request_stop put get effective_priority heappush heappop contains lookup
    insert erase add ◌*ℤ◌ lower
opening-IsRun = (tt, (tt, (tt, ((inr refl, batch-IsDistinct), ((refl, inr refl), tt)))))

pub busy-SystemInv : SystemInv busy
busy-SystemInv = run-SystemInv true opening opening-IsRun

run-IsQuietRun_example : IsQuietRun events (start true)
run-IsQuietRun_example = run-IsQuietRun true events events-IsRun

run-SystemInv_example : SystemInv (run events (start true))
run-SystemInv_example = run-SystemInv true events events-IsRun

-- A batch that names a file twice: both copies are handed out, and the second report raises.
abbrev twice : System
twice =
    run
      (swaps (loaded (("alpha", endpoint) ∷ []))
        ∷ starts (record batch { work_items = item "a.wav" 1 ∷ item "a.wav" 2 ∷ [] })
        ∷ steals manager
        ∷ steals manager
        ∷ reports 0 (success "a.wav")
        ∷ [])
      (start true)

twice_raises : Quiet (reports 0 (success "a.wav")) twice → ⊥
unfolding next created names submit receive deliver hand_out stop_named steal_work pop_work
    push_work assign mismatched is_old notify_work_success notify_work_failure requeue merge
    merge_results del_in_progress del_in_progress_owner check_completion drain_queue drain_rounds
    hotswap_endpoint_managers carry_out release_from plan plan_from plan_endpoint by_endpoint
    preserved surviving retire processor_of checker_of start_batch start_requested reset_results
    enqueue_all enqueue request_stop put get effective_priority heappush heappop contains lookup
    insert erase add ◌*ℤ◌ lower run
twice_raises h = h
