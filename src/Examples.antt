-- ===== src/Examples.antt =====
-- A small batch, its endpoint and its manager, on which the theorems are tried.
pub mod Runs
pub mod Calls
pub mod Scratches
pub mod Workers
pub mod Logs
pub mod Recognitions
pub mod Clients
pub mod Masters
use batch_processing_kit.Prelude.{ℕ, Bool, true, false, List, [], ◌∷◌, some, none, String}
use batch_processing_kit.Prelude.Int.{pos}
use batch_processing_kit.WorkItem.{WorkItemRequest, WorkItemResult, sentinel}
use batch_processing_kit.Endpoint.{EndpointConfig, BatchType, Manager}
use batch_processing_kit.Orchestrator.{BatchRequest}

abbrev pub item : String → ℕ → WorkItemRequest
item f n = record { ident = n; filepath = f; language = some "en-US"; priority = pos n }

abbrev pub endpoint : EndpointConfig
endpoint = record {
  host = "localhost";
  port = 5000;
  is_secure = false;
  is_cloud_service = false;
  concurrency = 2;
  rtf = 1000;
  subscription = none;
  language = "en-us";
  start_concurrency = 2;
}

abbrev pub speech : BatchType
speech = record {
  type_name = "speech";
  processor = "SpeechProcessor";
  status_checker = "SpeechChecker";
}

abbrev pub batch : BatchRequest
batch = record {
  batch_id = 7;
  batch_type = speech;
  files = "a.wav" ∷ "b.wav" ∷ [];
  combine_results = false;
  work_items = item "a.wav" 1 ∷ item "b.wav" 2 ∷ [];
}

-- The manager that a first hot-swap makes for the batch.
abbrev pub manager : Manager
manager = record {
  name = record { generation = 0; endpoint = "alpha" };
  endpoint_name = "alpha";
  endpoint_config = endpoint;
  processor = "SpeechProcessor";
  status_checker = "SpeechChecker";
  stop_requested = false;
}

abbrev pub failure : String → ℕ → WorkItemResult
failure f n = record {
  filepath = f;
  passed = false;
  endpoint = "alpha";
  attempts = n;
  can_retry = true;
  cached = false;
  error_type = some "TimeoutError";
  failed_reason = none;
}

abbrev pub success : String → WorkItemResult
success f = record {
  filepath = f;
  passed = true;
  endpoint = "alpha";
  attempts = 1;
  can_retry = false;
  cached = false;
  error_type = none;
  failed_reason = none;
}
