-- ===== src/Speech/Retry.antt =====
-- batchkit_examples/speech_sdk/recognize.py: recognize_file_retry.
use batch_processing_kit.Prelude.{
  ℕ, zero, suc, ◌+◌, ◌-◌, ◌≡◌, refl, Bool, false, not, ◌||◌, Option, none, some, if◌then◌else◌,
  ◌==◌, string_eq, inl, inr, Bool-cases, String,
}
use batch_processing_kit.Speech.{endpoint_down, class_name, SpeechSdkWorkItemResult}

-- batchkit/constants.py
abbrev pub recognizer_scope_retries : ℕ
recognizer_scope_retries = 2

abbrev is_endpoint_down : Option String → Bool
is_endpoint_down none = false
is_endpoint_down (some s) = s == class_name endpoint_down

-- The test that leaves the loop.
abbrev pub is_final : SpeechSdkWorkItemResult → Bool
is_final r = r.base.passed || not r.base.can_retry || is_endpoint_down r.base.error_type

-- The loop: its last result, the retries that are left, and how many times it has called the
-- recognizer. `run i` is the result of the call after `i` others.
unfoldable pub retry_loop :
    (ℕ → SpeechSdkWorkItemResult)
    → ℕ
    → ℕ
    → Option SpeechSdkWorkItemResult
    → Option SpeechSdkWorkItemResult × ℕ × ℕ
retry_loop run zero calls result = (result, zero, calls)
retry_loop run (suc left) calls result =
    let rest = retry_loop run left (suc calls) (some (run calls)) in
    if is_final (run calls) then (some (run calls), suc left, suc calls) else rest

abbrev pub with_attempts : ℕ → SpeechSdkWorkItemResult → SpeechSdkWorkItemResult
with_attempts n r = record r { base = record r.base { attempts = n } }

abbrev counted : Option SpeechSdkWorkItemResult × ℕ × ℕ → Option (SpeechSdkWorkItemResult × ℕ)
counted (none, left, calls) = none
counted (some r, left, calls) = some (with_attempts (recognizer_scope_retries - left + 1) r, calls)

-- The result and the number of calls. `none` is the AttributeError of a result that is None.
unfoldable pub recognize_file_retry :
    (ℕ → SpeechSdkWorkItemResult) → Option (SpeechSdkWorkItemResult × ℕ)
recognize_file_retry run = counted (retry_loop run recognizer_scope_retries 0 none)

-- How the wrapped recognizer ends, which it always does: after a first result that is final, with
-- that and one attempt; after a second that is final, with that and two; and after two that are
-- not, with the second and three attempts, one more than the calls that were made.
pub recognize_file_retry-cases :
    (run : ℕ → SpeechSdkWorkItemResult)
    → recognize_file_retry run ≡ (
        if is_final (run 0)
        then some (with_attempts 1 (run 0), 1)
        else if is_final (run 1)
        then some (with_attempts 2 (run 1), 2)
        else some (with_attempts 3 (run 1), 2))
unfolding recognize_file_retry retry_loop
recognize_file_retry-cases run = elim (Bool-cases (is_final (run 0))) [
  | inl first ↦ rw first refl
  | inr more ↦ elim (Bool-cases (is_final (run 1))) [
    | inl second ↦ rw (more, second) refl
    | inr neither ↦ rw (more, neither) refl
  ]
]
