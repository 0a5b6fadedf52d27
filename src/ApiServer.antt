-- ===== src/ApiServer.antt =====
-- batchkit/apiserver.py: submission, queries, deletion and watches of batches, and the controllers that
-- take their arguments from HTTP requests. What Flask makes of a controller's result is not modelled.
pub mod Answers
use batch_processing_kit.Prelude.{
  ℕ, ◌≡◌, Bool, true, false, List, [], ◌∷◌, ◌++◌, Option, none, some, String, if◌then◌else◌, ◌==◌,
  nat_eq, string_eq,
}
use batch_processing_kit.Prelude.Int.{ℤ, pos, negsuc}
use batch_processing_kit.Prelude.Dict.{lookup, keys}
use batch_processing_kit.BatchStatus.{
  BatchStatusEnum, by_name, Scratch, Error, batch_not_found, file_not_found, key_error, Action,
  BatchStatus, Result, returns, raises, new_batch, delete_batch, status,
}
use batch_processing_kit.BatchStatus.Watch.{Watches, register_watch, toggle}
use batch_processing_kit.Orchestrator.{BatchRequest}

-- The scratch space, the queue to the orchestrator, the watches, and the batches that the
-- orchestrator was asked to cancel.
pub record Server : Type 0 where
  pub scratch : Scratch
  pub submission_queue : List BatchRequest
  pub watches : Watches
  pub cancelled : List ℕ

-- The exceptions that `_code_exception` tells apart.
pub data ApiException : Type 0 where
  bad_request batch_not_found_exception any_other : ApiException

pub data Answer {ℓ} (A : Type ℓ) : Type ℓ where
  answers : A → Server → Answer A
  fails : ApiException → Server → Answer A

abbrev pub Handler {ℓ} : Type ℓ → Type ℓ
Handler A = Server → Answer A

infixl 5 ◌>>=◌
abbrev pub ◌>>=◌ {ℓ κ} : {A : Type ℓ} {B : Type κ} → Handler A → (A → Handler B) → Handler B
◌>>=◌ m f s = elim (m s) [ answers a s' ↦ f a s' | fails e s' ↦ fails e s' ]

infixl 5 ◌>>◌
abbrev pub ◌>>◌ {ℓ κ} : {A : Type ℓ} {B : Type κ} → Handler A → Handler B → Handler B
m >> k = m >>= λ _. k

abbrev pub return {ℓ} : {A : Type ℓ} → A → Handler A
return a s = answers a s

abbrev pub fail {ℓ} : {A : Type ℓ} → ApiException → Handler A
fail e s = fails e s

abbrev modify : (Server → Server) → Handler (Unit {0})
modify f s = answers tt (f s)

abbrev pub exception_of : Error → ApiException
exception_of batch_not_found = batch_not_found_exception
exception_of e = any_other

abbrev pub from_provider {ℓ} : {A : Type ℓ} → Server → Result A → Answer A
from_provider s (returns a d) = answers a (record s { scratch = d })
from_provider s (raises e d) = fails (exception_of e) (record s { scratch = d })

-- A call of the status provider.
abbrev pub provider {ℓ} : {A : Type ℓ} → Action A → Handler A
provider act s = from_provider s (act s.scratch)

unfoldable pub status_of : ℕ → Handler BatchStatus
status_of b = provider (status b)

-- `meanwhile` is what others, the orchestrator's thread among them, do between the `put` and the
-- reading of the status.
unfoldable pub submit : (Server → Server) → BatchRequest → Handler BatchStatus
submit meanwhile r = do
  provider (new_batch r.batch_id)
  modify (λ s. record s { submission_queue = s.submission_queue ++ r ∷ [] })
  modify meanwhile
  status_of r.batch_id

-- `list`
unfoldable pub list_batches : Handler (List ℕ)
list_batches s = answers (keys s.scratch) s

-- `unlinks` tells which files `os.unlink` removes.
unfoldable pub delete : (String → Bool) → ℕ → Handler BatchStatus
delete unlinks b = do
  new_status ← provider (delete_batch unlinks b)
  modify (λ s. record s { cancelled = s.cancelled ++ b ∷ [] })
  return new_status

abbrev registered : Server → Option Error × Watches → Answer (Unit {0})
registered s (none, w) = answers tt (record s { watches = w })
registered s (some e, w) = fails (exception_of e) (record s { watches = w })

-- Both readings of the status are under the lock of the provider, which every change of a status takes.
-- `meanwhile` is what others do until the event is set or the timeout has passed; `event` is the
-- new event.
unfoldable pub watch : ℕ → (Server → Server) → ℕ → BatchStatusEnum → Handler BatchStatus
watch event meanwhile b target_state = do
  λ s. registered s (register_watch event b target_state s.scratch s.scratch s.watches)
  modify meanwhile
  status_of b

-- The arguments of a request, and Python's `int` and `float` on texts, which are none where they
-- raise a ValueError.
pub record Request : Type 0 where
  pub args : List (String × String)
  pub int : String → Option ℤ
  pub float : String → Option ℕ

abbrev pub parsed_id : Option ℤ → Handler ℤ
parsed_id none = fail any_other
parsed_id (some n) = return n

unfoldable pub id_from_request : Request → Handler ℤ
id_from_request q = elim (lookup "batch_id" q.args) [
  | none ↦ fail bad_request
  | some t ↦ parsed_id (q.int t)
]

abbrev pub known_state : Option BatchStatusEnum → Handler BatchStatusEnum
known_state none = fail bad_request
known_state (some e) = return e

unfoldable pub target_state_from_request : Request → Handler BatchStatusEnum
target_state_from_request q = elim (lookup "target_state" q.args) [
  | none ↦ fail bad_request
  | some t ↦ known_state (by_name t)
]

abbrev numeric : Option ℕ → Handler (Option ℕ)
numeric none = fail bad_request
numeric (some t) = return (some t)

unfoldable pub timeout_from_request : Request → Handler (Option ℕ)
timeout_from_request q = elim (lookup "timeout" q.args) [
  | none ↦ return none
  | some t ↦ numeric (q.float t)
]

-- No batch has a negative id.
abbrev pub by_id {ℓ} : {A : Type ℓ} → (ℕ → Handler A) → ℤ → Handler A
by_id f (pos b) = f b
by_id f (negsuc b) = fail batch_not_found_exception

pub data Body : Type 0 where
  batch_status : BatchStatus → Body
  batch_ids : List ℕ → Body
  true_text : Body

abbrev pub with_status : Handler BatchStatus → Handler Body
with_status m = do answer ← m; return (batch_status answer)

unfoldable pub status_controller : Request → Handler Body
status_controller q = id_from_request q >>= λ n. with_status (by_id status_of n)

unfoldable pub delete_controller : (String → Bool) → Request → Handler Body
delete_controller unlinks q = id_from_request q >>= λ n. with_status (by_id (delete unlinks) n)

unfoldable pub list_controller : Handler Body
list_controller = list_batches >>= λ ids. return (batch_ids ids)

unfoldable pub ready_controller : Handler Body
ready_controller = return true_text

-- `BatchRequest.from_json` of the body: a request, or its exception.
pub data Parsed : Type 0 where
  parsed : BatchRequest → Parsed
  refused : ApiException → Parsed

abbrev submitted : (Server → Server) → Parsed → Handler BatchStatus
submitted meanwhile (refused e) = fail e
submitted meanwhile (parsed r) = submit meanwhile r

unfoldable pub submit_controller : (Server → Server) → Parsed → Handler Body
submit_controller meanwhile body = with_status (submitted meanwhile body)

-- The `try` block of `_watch_controller`. The timeout bounds what happens meanwhile.
unfoldable pub watch_block : ℕ → (Option ℕ → Server → Server) → Request → ℤ → Handler Body
watch_block event meanwhile q n = do
  target_state ← target_state_from_request q
  timeout ← timeout_from_request q
  with_status (by_id (λ b. watch event (meanwhile timeout) b target_state) n)

-- A bad request is logged, and the controller returns None, which is `none`.
abbrev pub caught : Answer Body → Answer (Option Body)
caught (answers a s) = answers (some a) s
caught (fails bad_request s) = answers none s
caught (fails e s) = fails e s

unfoldable pub watch_controller : ℕ → (Option ℕ → Server → Server) → Request → Handler (Option Body)
watch_controller event meanwhile q =
    id_from_request q >>= λ n s. caught (watch_block event meanwhile q n s)

-- The status that the error handler returns.
unfoldable pub code_exception : ApiException → ℕ
code_exception bad_request = 400
code_exception batch_not_found_exception = 404
code_exception any_other = 500

-- The rules that are registered: path, verb.
abbrev pub functional_endpoints : List (String × String)
functional_endpoints =
    ("/submit", "POST")
    ∷ ("/status", "GET")
    ∷ ("/delete", "PUT")
    ∷ ("/list", "GET")
    ∷ ("/watch", "GET")
    ∷ []

abbrev pub probe_endpoints : List (String × String)
probe_endpoints = ("/ready", "GET") ∷ []
