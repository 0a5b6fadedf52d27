-- ===== src/System.antt =====
-- The orchestrator together with the endpoint managers' threads: batchkit/orchestrator.py and
-- the calls that batchkit/endpoint_manager.py makes of it. Every call takes `_accounting_lock`,
-- so a run of the whole is a sequence of events, in any order that the threads may take.
pub mod Held
pub mod Steals
pub mod Reports
pub mod Retired
pub mod Swaps
pub mod Ends
pub mod Requests
pub mod Safety
use batch_processing_kit.Prelude.{
  ℕ, zero, suc, ◌+◌, ◌≤◌, ◌≡◌, ◌⊎◌, Bool, true, false, not, ◌&&◌, ◌||◌, List, [], ◌∷◌, map, Option,
  none, some, String, if◌then◌else◌, ◌==◌, string_eq, All,
}
use batch_processing_kit.Prelude.Dict.{contains, lookup, keys, count}
use batch_processing_kit.WorkItem.{WorkItemRequest, WorkItemResult, empty_queue}
use batch_processing_kit.Endpoint.{Manager, ManagerName, manager_name_eq}
use batch_processing_kit.Orchestrator.{
  Orchestrator, BatchRequest, Method, Result, returns, raises, after, IsReturned, is_old,
  steal_work, notify_work_success, notify_work_failure,
}
use batch_processing_kit.Orchestrator.Hotswap.{Loaded, hotswap_endpoint_managers}
use batch_processing_kit.Orchestrator.Batches.{
  stop_manager, request_stop, cancel_running_batch, submit, receive, start_batch,
}
use batch_processing_kit.Orchestrator.Start.{batch_files}

-- `outstanding` holds the work that managers have stolen and not yet reported.
pub record System : Type 0 where
  pub orchestrator : Orchestrator
  pub outstanding : List (Manager × String)

pub data Event : Type 0 where
  steals : Manager → Event
  reports : ℕ → WorkItemResult → Event
  swaps : Loaded → Event
  cancels : ℕ → Event
  stops : Event
  submits : BatchRequest → Event
  receives : Event
  starts : BatchRequest → Event

-- `pool_callback`: a cached result counts as a success. The path `f` is `result.filepath`, which
-- WorkItemResult copies from the request.
unfoldable pub deliver : Manager → String → WorkItemResult → Method (Unit {0})
deliver m f r =
    if r.passed || r.cached then notify_work_success f m r else notify_work_failure f m r

unfoldable pub stop_named : ManagerName → List Manager → List Manager
stop_named n [] = []
stop_named n (m ∷ ms) = (if m.name == n then stop_manager m else m) ∷ stop_named n ms

-- `self._stop_requested = True` in a manager that the orchestrator may list.
abbrev pub stop_self : Manager → Orchestrator → Orchestrator
stop_self m o = record o { endpoint_managers = stop_named m.name o.endpoint_managers }

-- `run` of a manager: the sentinel stops it, and other work goes to its pool.
unfoldable pub hand_out : Manager → System → Result (Option WorkItemRequest) → System
hand_out m s (returns none o) = record s { orchestrator = o }
hand_out m s (returns (some w) o) =
    if w.filepath == "STOP"
    then record s { orchestrator = stop_self m o }
    else record { orchestrator = o; outstanding = (m, w.filepath) ∷ s.outstanding }
hand_out m s (raises e o) = record s { orchestrator = o }

module _ {ℓ} {A : Type ℓ} where
  abbrev pub get_elem? : List A → ℕ → Option A
  get_elem? [] n = none
  get_elem? (x ∷ xs) zero = some x
  get_elem? (x ∷ xs) (suc n) = get_elem? xs n

  abbrev pub remove_at : List A → ℕ → List A
  remove_at [] n = []
  remove_at (x ∷ xs) zero = xs
  remove_at (x ∷ xs) (suc n) = x ∷ remove_at xs n

abbrev pub report : ℕ → WorkItemResult → System → Option (Manager × String) → System
report n r s none = s
report n r s (some (m, f)) = record {
  orchestrator = after (deliver m f r s.orchestrator);
  outstanding = remove_at s.outstanding n;
}

unfoldable pub next : Event → System → System
unfolding hand_out
next (steals m) s = hand_out m s (steal_work m s.orchestrator)
next (reports n r) s = report n r s (get_elem? s.outstanding n)
next (swaps l) s = record s { orchestrator = after (hotswap_endpoint_managers l s.orchestrator) }
next (cancels b) s = record s { orchestrator = after (cancel_running_batch b s.orchestrator) }
next stops s = record s { orchestrator = after (request_stop s.orchestrator) }
next (submits r) s = record s { orchestrator = submit r s.orchestrator }
next receives s = record s { orchestrator = after (receive s.orchestrator) }
next (starts r) s = record s { orchestrator = after (start_batch (some r) s.orchestrator) }

unfoldable pub run : List Event → System → System
run [] s = s
run (e ∷ es) s = run es (next e s)

unfoldable pub names : List Manager → List ManagerName
names [] = []
names (m ∷ ms) = m.name ∷ names ms

abbrev pub IsWellNamed : Manager → Type 0
IsWellNamed m = m.name.endpoint ≡ m.endpoint_name

-- A thread that steals belongs to a manager that was created: it is listed, or was retired. A
-- batch starts after the last one has completed, and names no file twice.
abbrev pub Allowed : Event → System → Type 0
Allowed (steals m) s =
    IsWellNamed m
    × ((is_old m s.orchestrator ≡ true)
        ⊎ (contains m.name (names s.orchestrator.endpoint_managers) ≡ true))
Allowed (starts r) s =
    ((s.orchestrator.batch_completion ≡ true) ⊎ (s.orchestrator.on_batch_id ≡ none))
    × ((f : String) → count f (batch_files r) ≤ 1)
Allowed _ s = Unit

abbrev pub IsRun : List Event → System → Type 0
IsRun [] s = Unit
IsRun (e ∷ es) s = Allowed e s × IsRun es (next e s)

abbrev pub Answered : WorkItemResult → System → Option (Manager × String) → Type 0
Answered r s none = Unit
Answered r s (some (m, f)) = IsReturned (deliver m f r s.orchestrator)

-- Whether the call that an event makes returns, rather than raise.
abbrev pub Quiet : Event → System → Type 0
Quiet (steals m) s = IsReturned (steal_work m s.orchestrator)
Quiet (reports n r) s = Answered r s (get_elem? s.outstanding n)
Quiet (swaps l) s = IsReturned (hotswap_endpoint_managers l s.orchestrator)
Quiet (cancels b) s = IsReturned (cancel_running_batch b s.orchestrator)
Quiet stops s = IsReturned (request_stop s.orchestrator)
Quiet (submits r) s = Unit
Quiet receives s = IsReturned (receive s.orchestrator)
Quiet (starts r) s = IsReturned (start_batch (some r) s.orchestrator)

abbrev pub IsQuietRun : List Event → System → Type 0
IsQuietRun [] s = Unit
IsQuietRun (e ∷ es) s = Quiet e s × IsQuietRun es (next e s)

-- `__init__`
unfoldable pub created : Bool → Orchestrator
created singleton = record {
  on_batch_id = none;
  on_batch_type = none;
  file_queue = empty_queue;
  file_queue_size = 0;
  in_progress = [];
  in_progress_owner = [];
  work_results = [];
  batch_completion = false;
  summary_gate = false;
  singleton_run_summary = singleton;
  stop_requested = false;
  submission_queue = [];
  endpoint_managers = [];
  endpoint_generation = 0;
  old_managers = [];
  work_success_callbacks = 0;
  work_failure_callbacks = 0;
}
