-- ===== src/Speech/Status.antt =====
-- batchkit_examples/speech_sdk/endpoint_status.py and work_item_processor.py, and
-- batchkit/endpoint_status.py: whether an endpoint is up, and the processor of speech work items.
-- The socket, `requests` and the parser of JSON are parameters.
use batch_processing_kit.Prelude.{
  ℕ, ◌≡◌, Bool, true, false, ◌&&◌, List, [], ◌∷◌, String, if◌then◌else◌, string_eq, Option, none,
}
use batch_processing_kit.Prelude.Text.{codes, lower, is_in, is_in-append}

-- How the connection to (host, port) and, after it, the request of the /status path end. The
-- exceptions of sockets and of `requests` are OSErrors; those of the JSON are not.
pub data Health : Type 0 where
  health_os_error not_json no_key no_text : Health
  health : String → String → Health

pub record Network : Type 0 where
  pub connects : String → ℕ → Bool
  pub get_status : String → ℕ → Health

pub data Check : Type 0 where
  up : Bool → Check
  json_decode_error key_error attribute_error : Check

abbrev says_valid : String → Bool
says_valid text = is_in (codes "valid") (lower text)

abbrev pub of_health : Health → Check
of_health health_os_error = up false
of_health not_json = json_decode_error
of_health no_key = key_error
of_health no_text = attribute_error
of_health (health api_status api_status_message) =
    up (says_valid api_status && says_valid api_status_message)

-- `is_secure` is not looked at.
unfoldable pub check_endpoint : Network → String → ℕ → Bool → Bool → Check
check_endpoint n host port is_secure is_cloud_service =
    if n.connects host port
    then if is_cloud_service then up true else of_health (n.get_status host port)
    else up false

-- `UnknownEndpointStatusChecker.check_endpoint`
unfoldable pub check_unknown : String → ℕ → Bool → Bool → Check
check_unknown host port is_secure is_cloud_service = up true

-- An endpoint that is not the cloud's and answers that its key is invalid counts as up, since the text
-- "invalid" has "valid" in it.
pub check_endpoint-invalid :
    (n : Network) (host : String) (port : ℕ) (is_secure : Bool) (status message : String)
    → n.connects host port ≡ true
    → n.get_status host port ≡ health status message
    → is_in (codes "invalid") (lower status) ≡ true
    → is_in (codes "invalid") (lower message) ≡ true
    → check_endpoint n host port is_secure false ≡ up true
unfolding check_endpoint
check_endpoint-invalid n host port is_secure status message connects answers s m =
    let s' = is_in-append (codes "in") (codes "valid") (lower status) s in
    let m' = is_in-append (codes "in") (codes "valid") (lower message) m in
    rw (connects, answers, s', m')

-- SpeechSDKWorkItemProcessor.
unfoldable pub work_item_types : List String
work_item_types = "SpeechSDKWorkItemRequest" ∷ []

-- `process_impl`; `none` is its AssertionError, or an exception of the recognizer.
unfoldable pub process_impl {ℓ} : {A : Type ℓ} → (String → Bool) → String → Option A → Option A
process_impl is_instance item_type run_recognizer =
    if is_instance item_type then run_recognizer else none
