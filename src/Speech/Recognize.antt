-- ===== src/Speech/Recognize.antt =====
-- batchkit_examples/speech_sdk/recognize.py: FileRecognizer.recognize, its child process, and the
-- search for a cached result; batchkit/utils.py: tee_to_pipe_decorator.
use batch_processing_kit.Prelude.{
  ℕ, Bool, true, false, not, List, [], ◌∷◌, Option, none, some, String, if◌then◌else◌, ◌==◌,
  string_eq,
}
use batch_processing_kit.Speech.{
  endpoint_down, failed_recognition, another, class_name, is_transient, Raised, Try, returns,
  raises, SpeechSdkWorkItemResult,
}

-- What a child process puts on the pipe: the value, where None is a value too, or the exception.
pub data Sent : Type 0 where
  sent_value : Option ℕ → Sent
  exception : Raised → Sent

-- `tee_to_pipe_decorator(func, pipe, suppress_reraise, pipe_void)`: what is put on the pipe, and how
-- the wrapped call ends.
unfoldable pub tee_to_pipe : Bool → Bool → Try (Option ℕ) → List Sent × Try (Option ℕ)
tee_to_pipe suppress pipe_void (returns (some d)) = (sent_value (some d) ∷ [], returns (some d))
tee_to_pipe suppress pipe_void (returns none) =
    (if pipe_void then sent_value none ∷ [] else [], returns none)
tee_to_pipe suppress pipe_void (raises e) =
    (exception e ∷ [], if suppress then returns none else raises e)

-- How a child process ends: by a signal, or after its target has run with the given outcome.
pub data Child : Type 0 where
  killed : ℕ → Child
  ran : Try (Option ℕ) → Child

abbrev assertion_error : String → Try ℕ
assertion_error s = raises (record { raised_class = another "AssertionError"; text = s })

-- The parent's reading of the pipe. The texts of the exceptions are abbreviated here and below.
abbrev pub received : List Sent → Try ℕ
received [] = assertion_error ""
received (exception e ∷ rest) = raises e
received (sent_value (some d) ∷ rest) = returns d
received (sent_value none ∷ rest) = assertion_error ""

abbrev pub waited : Child → Try ℕ
waited (killed signum) =
    raises (record { raised_class = failed_recognition; text = "Terminating signum" })
waited (ran outcome) = received (tee_to_pipe true true outcome).0

-- `__recognize_in_subproc`, where `healthy` is the answer of the endpoint's status checker.
unfoldable pub recognize_in_subproc : Bool → Child → Try ℕ
recognize_in_subproc healthy child =
    if not healthy
    then raises (record { raised_class = endpoint_down; text = "Target failed." })
    else waited child

-- The parts of a result's JSON that a search for a cached result reads, and those that a resumed
-- recognition starts from. A hashed result has its length.
pub record ResultJson : Type 0 where
  pub audio_file_hash : String
  pub transcription_status : Option String
  pub audio_length : ℕ
  pub last_processed_offset : ℕ

-- A candidate JSON file: absent, not to be loaded, without a single hashed result, or with one.
pub data CacheFile : Type 0 where
  absent : CacheFile
  broken : Raised → CacheFile
  unhashed : CacheFile
  hashed : ResultJson → CacheFile

-- `get_cached_result`: the duration and the path of a success, and the JSON. `json_file` names the
-- result's file in a directory, and `current` is the hash of the audio file.
abbrev pub Cached : Type 0
Cached = Option (ℕ × String) × Option ResultJson

abbrev pub succeeded : ResultJson → Bool
succeeded j = elim j.transcription_status [ none ↦ false | some s ↦ s == "Succeeded" ]

abbrev found : String → ResultJson → Cached
found path j = if succeeded j then (some (j.audio_length, path), some j) else (none, some j)

abbrev candidate : String → String → Try Cached → CacheFile → Try Cached
candidate current path rest absent = rest
candidate current path rest (broken e) = raises e
candidate current path rest unhashed = rest
candidate current path rest (hashed j) =
    if current == j.audio_file_hash then returns (found path j) else rest

unfoldable pub get_cached_result :
    (String → CacheFile) → (String → String) → String → List String → Try Cached
get_cached_result files json_file current [] = returns (none, none)
get_cached_result files json_file current (d ∷ dirs) =
    candidate current (json_file d) (get_cached_result files json_file current dirs)
      (files (json_file d))

-- What `recognize` uses: the search, the child process for the JSON that was found, the path where
-- the result has to be, and the copy to it.
pub record Recognition : Type 0 where
  pub filepath : String
  pub host : String
  pub search : Try Cached
  pub healthy : Bool
  pub child : Option ResultJson → Child
  pub target_path : String
  pub copyfile : String → String → Try (Unit {0})

pub record Outcome : Type 0 where
  pub passed : Bool
  pub cached : Bool
  pub duration : Option ℕ
  pub error : Option Raised

abbrev failed : Bool → Option ℕ → Raised → Outcome
failed cached d e = record { passed = false; cached = cached; duration = d; error = some e }

abbrev pub passes : Bool → ℕ → Outcome
passes cached d = record { passed = true; cached = cached; duration = some d; error = none }

abbrev pub copied : ℕ → Try (Unit {0}) → Outcome
copied d (returns tt) = passes true d
copied d (raises e) = failed true (some d) e

abbrev pub recognized : Try ℕ → Outcome
recognized (returns d) = passes false d
recognized (raises e) = failed false none e

-- The `try` block. A search that raises leaves the duration 0 that was set before it.
abbrev pub try_block : Recognition → Try Cached → Outcome
try_block n (raises e) = failed false (some 0) e
try_block n (returns (none, json)) = recognized (recognize_in_subproc n.healthy (n.child json))
try_block n (returns (some (d, path), json)) =
    if n.target_path == path then passes true d else copied d (n.copyfile path n.target_path)

abbrev error_type : Option Raised → Option String
error_type none = none
error_type (some e) = some (class_name e.raised_class)

abbrev failed_reason : Option Raised → Option String
failed_reason none = none
failed_reason (some e) = some e.text

-- `can_retry` is true where nothing was raised.
abbrev can_retry : Option Raised → Bool
can_retry none = true
can_retry (some e) = is_transient e.raised_class

abbrev pub reported : Recognition → Outcome → SpeechSdkWorkItemResult
reported n o = record {
  base = record {
    filepath = n.filepath;
    passed = o.passed;
    endpoint = n.host;
    attempts = 1;
    can_retry = can_retry o.error;
    cached = o.cached;
    error_type = error_type o.error;
    failed_reason = failed_reason o.error;
  };
  audio_duration = o.duration;
}

unfoldable pub recognize : Recognition → SpeechSdkWorkItemResult
recognize n = reported n (try_block n n.search)
