-- ===== src/Orchestrator/Start.antt =====
-- batchkit/orchestrator.py: the start of a batch and the stop of the orchestrator.
use batch_processing_kit.Prelude.{
  ℕ, ◌+◌, ◌≤◌, ◌≡◌, refl, Bool, true, false, List, [], ◌∷◌, ◌++◌, map, none, some, String,
  if◌then◌else◌, arith, ◌==◌, nat_eq, string_eq, length, ap, ◌∙◌,
}
use batch_processing_kit.Prelude.Dict.{count}
use batch_processing_kit.WorkItem.{WorkItemRequest, qsize}
use batch_processing_kit.Orchestrator.{
  Orchestrator, BatchRequest, Result, returns, after, return, modify, ◌>>=◌, ◌>>◌, push_work,
}
use batch_processing_kit.Orchestrator.Invariant.{Inv, pending, push_work-pending, push_work-counted}
use batch_processing_kit.Orchestrator.Batches.{
  stop_manager, request_stop, assert, begin, reset_results, enqueue, enqueue_all, start_requested,
  start_batch,
}
use batch_processing_kit.Orchestrator.Lifecycle.{
  IsIdle, IsIdle-pending, Drained, drain_queue-Drained,
}

abbrev pub batch_files : BatchRequest → List String
batch_files r = map (λ w. w.filepath) r.work_items

abbrev pub opened : BatchRequest → Orchestrator → Orchestrator
opened r o = begin r (reset_results o)

module _ (r : BatchRequest) (o : Orchestrator) where
  abbrev start_if : Bool → Result Bool
  start_if stops =
      (if stops then return false else (modify reset_results >> start_requested (some r))) o

  abbrev checked : ℕ → ℕ → Result Bool
  checked busy queued =
      (assert (busy == 0)
          >> (assert (queued == 0) >> (modify (enqueue_all r.work_items) >> return true)))
        (opened r o)

  -- A stopped orchestrator starts nothing.
  pub start_stopped : o.stop_requested ≡ true → start_batch (some r) o ≡ returns false o
  unfolding start_batch
  start_stopped h = ap start_if h

  -- When nothing is queued or in progress the two assertions hold, and the batch starts.
  pub start_idle :
      o.stop_requested ≡ false
      → IsIdle o
      → start_batch (some r) o ≡ returns true (enqueue_all r.work_items (opened r o))
  unfolding start_batch start_requested reset_results
  start_idle live i =
      ap start_if live
      ∙ ap (λ n. checked n o.file_queue_size) (ap length i.work)
      ∙ ap (λ n. checked 0 n) i.size

pub enqueue_all-pending :
    (f : String) (ws : List WorkItemRequest) (o : Orchestrator)
    → pending f (enqueue_all ws o) ≡ count f (map (λ w. w.filepath) ws) + pending f o
unfolding enqueue_all enqueue push_work count
enqueue_all-pending f [] o = omega arith
enqueue_all-pending f (w ∷ ws) o =
    omega (arith, enqueue_all-pending f ws (enqueue w o), push_work-pending f w o)

record Queued (o : Orchestrator) : Type 0 where
  counted : o.file_queue_size ≡ qsize o.file_queue
  work : o.in_progress ≡ []
  owner : o.in_progress_owner ≡ []

enqueue_all-Queued :
    (ws : List WorkItemRequest) (o : Orchestrator) → Queued o → Queued (enqueue_all ws o)
unfolding enqueue_all enqueue push_work
enqueue_all-Queued [] o h = h
enqueue_all-Queued (w ∷ ws) o h =
    enqueue_all-Queued ws (enqueue w o)
      (record { counted = push_work-counted w o h.counted; work = h.work; owner = h.owner })

-- The files that a batch starts with keep the invariant if none is named twice.
pub start-Inv :
    (r : BatchRequest) (o : Orchestrator)
    → IsIdle o
    → ((f : String) → count f (batch_files r) ≤ 1)
    → Inv (enqueue_all r.work_items (opened r o))
unfolding reset_results
start-Inv r o i distinct =
    let q =
      enqueue_all-Queued r.work_items (opened r o)
        (record { counted = omega (arith, i.size, i.queue); work = i.work; owner = i.owner }) in
    record {
      counted = q.counted;
      owned = rw (q.work, q.owner);
      named = rw q.work tt;
      once = λ f. omega (
        arith,
        enqueue_all-pending f r.work_items (opened r o),
        distinct f,
        IsIdle-pending o f i,
      );
    }

-- When no stop was requested and nothing is queued or in progress, a batch that names no file
-- twice starts: `start_batch` returns true, the invariant holds, and each file is pending as often
-- as the request names it.
pub start_batch-pending :
    (r : BatchRequest) (o : Orchestrator) (f : String)
    → o.stop_requested ≡ false
    → IsIdle o
    → ((g : String) → count g (batch_files r) ≤ 1)
    → (start_batch (some r) o ≡ returns true (after (start_batch (some r) o)))
      × Inv (after (start_batch (some r) o))
      × (pending f (after (start_batch (some r) o)) ≡ count f (batch_files r))
unfolding reset_results
start_batch-pending r o f live i distinct = rw (start_idle r o live i) (
  refl,
  start-Inv r o i distinct,
  omega (arith, enqueue_all-pending f r.work_items (opened r o), IsIdle-pending o f i),
)

module _ (o : Orchestrator) where
  abbrev pub stopping : Orchestrator
  stopping = record o { stop_requested = true }

  abbrev pub stopped : Orchestrator → Orchestrator
  stopped d = record d {
    submission_queue = d.submission_queue ++ none ∷ [];
    batch_completion = true;
    endpoint_managers = map stop_manager d.endpoint_managers;
    summary_gate = true;
  }

  pub request_stop_lem :
      Inv o → (d : Orchestrator) × (request_stop o ≡ returns tt (stopped d)) × Drained stopping d
  unfolding request_stop
  request_stop_lem v =
      let (d, e, drained) = drain_queue-Drained stopping v.counted in
      (d, rw (e, ◌>>◌, ◌>>=◌), drained)
