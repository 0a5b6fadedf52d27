-- ===== src/Speech.antt =====
-- batchkit_examples/speech_sdk: one recognition of one audio file, as the pool worker does it.
-- Times are natural numbers of the Speech SDK's time unit (10^-7 seconds).
pub mod Recognize
pub mod Retry
pub mod Waiting
pub mod Session
pub mod Behind
pub mod Progress
pub mod Request
pub mod Accepted
pub mod Audio
pub mod Reading
pub mod Summary
pub mod Status
pub mod CommandLine
pub mod Host
pub mod Options
pub mod Results
pub mod Placed
pub mod Outcomes
use batch_processing_kit.Prelude.{ℕ, Bool, true, false, Option, String}
use batch_processing_kit.WorkItem.{WorkItemResult}

-- The classes that `recognize` tells apart. `another` has the name of any other class: also of a
-- subclass of these, since the test is on the class itself.
pub data ExceptionClass : Type 0 where
  endpoint_down failed_recognition child_process cancellation os_error : ExceptionClass
  another : String → ExceptionClass

-- `type(e).__name__`
abbrev pub class_name : ExceptionClass → String
class_name endpoint_down = "EndpointDownError"
class_name failed_recognition = "FailedRecognitionError"
class_name child_process = "ChildProcessError"
class_name cancellation = "CancellationTokenException"
class_name os_error = "OSError"
class_name (another s) = s

-- `e.__class__ in [EndpointDownError, ...]`
abbrev pub is_transient : ExceptionClass → Bool
is_transient (another s) = false
is_transient c = true

pub record Raised : Type 0 where
  pub raised_class : ExceptionClass
  pub text : String

pub data Try {ℓ} (A : Type ℓ) : Type ℓ where
  returns : A → Try A
  raises : Raised → Try A

pub record SpeechSdkWorkItemResult : Type 0 where
  pub base : WorkItemResult
  pub audio_duration : Option ℕ
