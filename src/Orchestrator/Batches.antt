-- ===== src/Orchestrator/Batches.antt =====
-- batchkit/orchestrator.py: a batch is taken, started and canceled; the orchestrator is stopped.
use batch_processing_kit.Prelude.{
  ℕ, Bool, true, false, not, List, [], ◌∷◌, ◌++◌, map, Option, none, some, if◌then◌else◌, ◌==◌,
  string_eq, nat_eq, length,
}
use batch_processing_kit.Prelude.Dict.{insert, add}
use batch_processing_kit.WorkItem.{WorkItemRequest}
use batch_processing_kit.Endpoint.{Manager, ManagerName, manager_name_eq, BatchType}
use batch_processing_kit.Orchestrator.{
  Orchestrator, BatchRequest, Method, assertion_error, attribute_error, return, raise, modify, self,
  ◌>>=◌, ◌>>◌, push_work, drain_queue,
}

abbrev pub stop_manager : Manager → Manager
stop_manager m = record m { stop_requested = true }

-- The part of `request_stop` under the accounting lock.
unfoldable pub request_stop : Method (Unit {0})
request_stop = do
  modify (λ o. record o { stop_requested = true })
  drain_queue
  modify (λ o. record o {
    submission_queue = o.submission_queue ++ none ∷ [];
    batch_completion = true;
    endpoint_managers = map stop_manager o.endpoint_managers;
    summary_gate = true;
  })

unfoldable pub add_names : List Manager → List ManagerName → List ManagerName
add_names [] old = old
add_names (m ∷ ms) old = add_names ms (add m.name old)

abbrev pub is_batch : Option ℕ → ℕ → Bool
is_batch none b = false
is_batch (some a) b = a == b

unfoldable pub cancel_running_batch : ℕ → Method Bool
cancel_running_batch b = do
  o ← self
  if not (is_batch o.on_batch_id b) then return false else do
    drain_queue
    modify (λ o. record o {
      in_progress = [];
      in_progress_owner = [];
      endpoint_managers = map stop_manager o.endpoint_managers;
      old_managers = add_names o.endpoint_managers o.old_managers;
      batch_completion = true;
    })
    return true

-- What the API server does to the orchestrator: it puts a request on the submission queue.
unfoldable pub submit : BatchRequest → Orchestrator → Orchestrator
submit r o = record o { submission_queue = o.submission_queue ++ some r ∷ [] }

abbrev pub type_of : Option BatchRequest → Option BatchType
type_of none = none
type_of (some r) = some r.batch_type

-- The master thread takes a request off the queue and records its type; with nothing there
-- (the result `none`) it waits.
abbrev pub receive_from : List (Option BatchRequest) → Method (Option (Option BatchRequest))
receive_from [] = return none
receive_from (r ∷ rest) = do
  modify (λ o. record o { submission_queue = rest; on_batch_type = type_of r })
  return (some r)

unfoldable pub receive : Method (Option (Option BatchRequest))
receive o = receive_from o.submission_queue o

abbrev pub assert : Bool → Method (Unit {0})
assert true = return tt
assert false = raise assertion_error

-- The loop over `make_work_items`.
unfoldable pub enqueue : WorkItemRequest → Orchestrator → Orchestrator
enqueue w o =
    let pushed = push_work w o in
    record pushed { work_results = insert w.filepath none pushed.work_results }

unfoldable pub enqueue_all : List WorkItemRequest → Orchestrator → Orchestrator
enqueue_all [] o = o
enqueue_all (w ∷ ws) o = enqueue_all ws (enqueue w o)

-- Reset record keeping if it is not the singleton run summary.
unfoldable pub reset_results : Orchestrator → Orchestrator
reset_results o = record o { work_results = if o.singleton_run_summary then o.work_results else [] }

abbrev pub begin : BatchRequest → Orchestrator → Orchestrator
begin r o = record o {
  on_batch_id = some r.batch_id;
  batch_completion = false;
  summary_gate = true;
}

unfoldable pub start_requested : Option BatchRequest → Method Bool
start_requested none = raise attribute_error
start_requested (some r) = do
  modify (begin r)
  o ← self
  assert (length o.in_progress == 0)
  assert (o.file_queue_size == 0)
  modify (enqueue_all r.work_items)
  return true

-- The locked part of the master loop that starts a batch; `false` is its early return.
unfoldable pub start_batch : Option BatchRequest → Method Bool
start_batch r = do
  o ← self
  if o.stop_requested then return false else do modify reset_results; start_requested r
