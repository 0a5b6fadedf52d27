-- ===== src/Orchestrator/State.antt =====
-- The fields of batchkit/orchestrator.py's Orchestrator, and its methods' effects as a monad:
-- a method ends with a value or with an exception, and keeps what it wrote either way.
-- Every method here runs under `_accounting_lock`, so each is one atomic step.
use batch_processing_kit.Prelude.{ℕ, Bool, List, Option, String}
use batch_processing_kit.WorkItem.{WorkItemRequest, WorkItemResult, WorkItemQueue}
use batch_processing_kit.Endpoint.{Manager, ManagerName, BatchType}

-- batchkit/batch_request.py, with the work items that `make_work_items` returns.
pub record BatchRequest : Type 0 where
  pub batch_id : ℕ
  pub batch_type : BatchType
  pub files : List String
  pub combine_results : Bool
  pub work_items : List WorkItemRequest

-- `on_batch_id` is `none` for the source's -1, and `on_batch_type` for the class of None.
pub record Orchestrator : Type 0 where
  pub on_batch_id : Option ℕ
  pub on_batch_type : Option BatchType
  pub file_queue : WorkItemQueue
  pub file_queue_size : ℕ
  pub in_progress : List (String × WorkItemRequest)
  pub in_progress_owner : List (String × Manager)
  pub work_results : List (String × Option WorkItemResult)
  pub batch_completion : Bool
  pub summary_gate : Bool
  pub singleton_run_summary : Bool
  pub stop_requested : Bool
  pub submission_queue : List (Option BatchRequest)
  pub endpoint_managers : List Manager
  pub endpoint_generation : ℕ
  pub old_managers : List ManagerName
  pub work_success_callbacks : ℕ
  pub work_failure_callbacks : ℕ

pub data Exception : Type 0 where
  index_error key_error assertion_error attribute_error : Exception

pub data Result {ℓ} (A : Type ℓ) : Type ℓ where
  returns : A → Orchestrator → Result A
  raises : Exception → Orchestrator → Result A

abbrev pub Method {ℓ} : Type ℓ → Type ℓ
Method A = Orchestrator → Result A

infixl 5 ◌>>=◌ ◌>>◌
abbrev pub ◌>>=◌ {ℓ κ} : {A : Type ℓ} {B : Type κ} → Method A → (A → Method B) → Method B
◌>>=◌ m f o = elim (m o) [ returns a o' ↦ f a o' | raises e o' ↦ raises e o' ]

abbrev pub ◌>>◌ {ℓ κ} : {A : Type ℓ} {B : Type κ} → Method A → Method B → Method B
m >> k = m >>= λ _. k

abbrev pub return {ℓ} : {A : Type ℓ} → A → Method A
return a o = returns a o

abbrev pub raise {ℓ} : {A : Type ℓ} → Exception → Method A
raise e o = raises e o

abbrev pub modify : (Orchestrator → Orchestrator) → Method (Unit {0})
modify f o = returns tt (f o)

abbrev pub self : Method Orchestrator
self o = returns o o

-- The state after a method, however it ends.
abbrev pub after {ℓ} : {A : Type ℓ} → Result A → Orchestrator
after (returns a o) = o
after (raises e o) = o

abbrev pub IsReturned {ℓ} : {A : Type ℓ} → Result A → Type 0
IsReturned (returns a o) = Unit
IsReturned (raises e o) = ⊥
