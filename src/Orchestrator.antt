-- ===== src/Orchestrator.antt =====
-- batchkit/orchestrator.py: how work items are handed to endpoint managers and come back.
mod State
pub mod Summaries
pub mod Hotswap
pub mod Batches
pub mod Invariant
pub mod Steal
pub mod Reports
pub mod Settled
pub mod Release
pub mod Freed
pub mod Requeued
pub mod Swapped
pub mod Lifecycle
pub mod Start
pub mod Retries
pub mod Completion
pub mod Hazards
pub use State.*
use batch_processing_kit.Prelude.{
  ℕ, zero, suc, ◌+◌, ◌-◌, ◌≡◌, Bool, true, false, not, ◌&&◌, ◌||◌, List, [], ◌∷◌, ◌++◌, map, Option,
  none, some, String, if◌then◌else◌, length, ltb, ◌==◌, nat_eq, string_eq,
}
use batch_processing_kit.Prelude.Text.{lower, codes_eq}
use batch_processing_kit.Prelude.Dict.{contains, lookup, insert, erase, keys, add}
use batch_processing_kit.WorkItem.{
  WorkItemRequest, WorkItemResult, WorkItemQueue, sentinel, put, get,
}
use batch_processing_kit.Endpoint.{Manager, ManagerName, manager_name_eq}

-- batchkit/constants.py
abbrev pub orchestrator_scope_max_retries : ℕ
orchestrator_scope_max_retries = 9

-- `_file_queue.put(w)` with the count that goes with it.
unfoldable pub push_work : WorkItemRequest → Orchestrator → Orchestrator
push_work w o = record o {
  file_queue = put w o.file_queue;
  file_queue_size = o.file_queue_size + 1;
}

popped : Option (WorkItemRequest × WorkItemQueue) → Method WorkItemRequest
popped none o = raises index_error o
popped (some (w, q)) o =
    returns w (record o { file_queue = q; file_queue_size = o.file_queue_size - 1 })

-- `_file_queue.get()` with its count; callers have seen that the count is not 0.
unfoldable pub pop_work : Method WorkItemRequest
unfolding popped
pop_work o = popped (get o.file_queue) o

-- `while self._file_queue_size > 0`: each round takes one off the count, so the loop has as
-- many rounds as the count it starts with.
unfoldable pub drain_rounds : ℕ → Method (Unit {0})
drain_rounds zero = return tt
drain_rounds (suc n) = pop_work >> drain_rounds n

unfoldable pub drain_queue : Method (Unit {0})
unfolding drain_rounds
drain_queue o = drain_rounds o.file_queue_size o

-- `work.language and manager language != work language`, without case.
unfoldable pub mismatched : Option String → Manager → Bool
mismatched none m = false
mismatched (some l) m = not (l == "") && not (lower m.endpoint_config.language == lower l)

unfoldable pub assign : WorkItemRequest → Manager → Orchestrator → Orchestrator
assign w m o = record o {
  in_progress = insert w.filepath w o.in_progress;
  in_progress_owner = insert w.filepath m o.in_progress_owner;
}

unfoldable pub is_old : Manager → Orchestrator → Bool
is_old m o = contains m.name o.old_managers

-- The part of `steal_work`'s loop that has seen a positive count.
take_work : Manager → Method (Option WorkItemRequest)
take_work m = do
  w ← pop_work
  if mismatched w.language m
      then (modify (push_work w) >> return (some sentinel))
      else (modify (assign w m) >> return (some w))

-- One round of `steal_work`; `none` means that the manager goes to sleep on the condition,
-- and makes another round when it is woken.
unfoldable pub steal_work : Manager → Method (Option WorkItemRequest)
unfolding take_work
steal_work m = do
  o ← self
  if is_old m o || o.stop_requested
      then return (some sentinel)
      else if ltb 0 o.file_queue_size
      then take_work m
      else return none

abbrev pub merged : Option (Option WorkItemResult) → WorkItemResult → WorkItemResult
merged none r = r
merged (some none) r = r
merged (some (some previous)) r = record r { attempts = r.attempts + previous.attempts }

-- What `_merge_results` stores for the file.
unfoldable pub merge : String → WorkItemResult → Orchestrator → WorkItemResult
merge f r o = merged (lookup f o.work_results) r

unfoldable pub merge_results : String → WorkItemResult → Orchestrator → Orchestrator
unfolding merge
merge_results f r o = record o { work_results = insert f (some (merge f r o)) o.work_results }

-- `del self._in_progress[filepath]` and the same for the owner.
unfoldable pub del_in_progress : String → Method (Unit {0})
del_in_progress f o =
    if contains f (keys o.in_progress)
    then returns tt (record o { in_progress = erase f o.in_progress })
    else raises key_error o

unfoldable pub del_in_progress_owner : String → Method (Unit {0})
del_in_progress_owner f o =
    if contains f (keys o.in_progress_owner)
    then returns tt (record o { in_progress_owner = erase f o.in_progress_owner })
    else raises key_error o

-- "Did we just finish the batch?"
unfoldable pub check_completion : Orchestrator → Orchestrator
check_completion o = record o {
  batch_completion =
      if o.file_queue_size == 0 && length o.in_progress == 0 then true else o.batch_completion;
}

unfoldable pub notify_work_success : String → Manager → WorkItemResult → Method (Unit {0})
notify_work_success f m r = do
  modify (λ o. record o { work_success_callbacks = o.work_success_callbacks + 1 })
  o ← self
  if is_old m o || o.stop_requested then return tt else do
    del_in_progress f
    del_in_progress_owner f
    modify (merge_results f r)
    modify check_completion

-- `attempts - 1` stops at 0 here and at -1 in the source: below the limit either way.
abbrev pub may_retry : WorkItemResult → WorkItemResult → Bool
may_retry r stored = r.can_retry && ltb (stored.attempts - 1) orchestrator_scope_max_retries

requeue_found : Option WorkItemRequest → Method (Unit {0})
requeue_found none o = raises key_error o
requeue_found (some w) o = returns tt (push_work w o)

-- `self._file_queue.put(self._in_progress[filepath])`
unfoldable pub requeue : String → Method (Unit {0})
unfolding requeue_found
requeue f o = requeue_found (lookup f o.in_progress) o

unfoldable pub notify_work_failure : String → Manager → WorkItemResult → Method (Unit {0})
notify_work_failure f m r = do
  modify (λ o. record o { work_failure_callbacks = o.work_failure_callbacks + 1 })
  o ← self
  if is_old m o || o.stop_requested then return tt else do
    modify (merge_results f r)
    if may_retry r (merge f r o) then requeue f else return tt
    del_in_progress f
    del_in_progress_owner f
    modify check_completion
