-- ===== src/Speech/Outcomes.antt =====
-- batchkit_examples/speech_sdk/recognize.py: what a recognition reports, by what its child process
-- and the search for a cached result find.
use batch_processing_kit.Prelude.{
  ℕ, ◌≡◌, refl, true, false, List, [], ◌∷◌, ◌++◌, Option, none, some, String, if◌then◌else◌, ◌==◌,
  string_eq, ◌⊎◌, inl, inr, arith, Bool-cases, All, ◌∙◌,
}
use batch_processing_kit.Speech.{Try, returns, raises, SpeechSdkWorkItemResult}
use batch_processing_kit.Speech.Recognize.{
  ran, recognize_in_subproc, tee_to_pipe, ResultJson, CacheFile, absent, unhashed, hashed,
  get_cached_result, succeeded, Recognition, recognize, reported, try_block, copied, passes,
  recognized,
}
use batch_processing_kit.Speech.Retry.{recognize_file_retry, recognize_file_retry-cases}

-- `__recognize` as it would end in the same process.
abbrev pub returning_duration : Try ℕ → Try (Option ℕ)
returning_duration (returns d) = returns (some d)
returning_duration (raises e) = raises e

-- A child process on a healthy endpoint that runs to its end is transparent: the parent returns or
-- raises what the child's function returned or raised.
pub recognize_in_subproc-same_process :
    (outcome : Try ℕ) → recognize_in_subproc true (ran (returning_duration outcome)) ≡ outcome
unfolding recognize_in_subproc tee_to_pipe
recognize_in_subproc-same_process (returns d) = refl
recognize_in_subproc-same_process (raises e) = refl

-- A directory that the search passes by.
abbrev pub IsSkipped : (String → CacheFile) → (String → String) → String → String → Type 0
IsSkipped files json_file current d =
    (files (json_file d) ≡ absent)
    ⊎ ((files (json_file d) ≡ unhashed)
        ⊎ ((j : ResultJson) × (files (json_file d) ≡ hashed j)
            × ((current == j.audio_file_hash) ≡ false)))

search_skips :
    (files : String → CacheFile) (json_file : String → String) (current : String) (d : String)
    (dirs : List String)
    → IsSkipped files json_file current d
    → get_cached_result files json_file current (d ∷ dirs)
      ≡ get_cached_result files json_file current dirs
unfolding get_cached_result
search_skips files json_file current d dirs (inl e) = rw e refl
search_skips files json_file current d dirs (inr (inl e)) = rw e refl
search_skips files json_file current d dirs (inr (inr (j, e, other))) = rw (e, other) refl

search_finds :
    (files : String → CacheFile) (json_file : String → String) (before : List String) (d : String)
    (dirs : List String) (j : ResultJson)
    → All (IsSkipped files json_file j.audio_file_hash) before
    → files (json_file d) ≡ hashed j
    → get_cached_result files json_file j.audio_file_hash (before ++ d ∷ dirs)
      ≡ returns
          (if succeeded j then (some (j.audio_length, json_file d), some j) else (none, some j))
unfolding get_cached_result
search_finds files json_file [] d dirs j skipped there =
    let same : (j.audio_file_hash == j.audio_file_hash) ≡ true =
      ground (arith, string_eq.beq_iff j.audio_file_hash j.audio_file_hash) in
    rw (there, same) refl
search_finds files json_file (b ∷ before) d dirs j skipped there =
    search_skips files json_file j.audio_file_hash b (before ++ d ∷ dirs) skipped.0
    ∙ search_finds files json_file before d dirs j skipped.1 there

-- What the first JSON file with the audio file's hash makes of a recognition.
abbrev pub from_json : Recognition → String → ResultJson → SpeechSdkWorkItemResult
from_json n path j =
    if succeeded j
    then reported n (
        if n.target_path == path
        then passes true j.audio_length
        else copied j.audio_length (n.copyfile path n.target_path))
    else reported n (recognized (recognize_in_subproc n.healthy (n.child (some j))))

-- The first directory, in the order of the search, with a readable result for the hash of the audio
-- file decides. If that result is a success, then the recognition reports it as cached, with its
-- duration, without a child process, once the file is where it has to be. If not, then the child
-- process runs and is given that JSON, whatever the later directories hold.
pub recognize-cached :
    (n : Recognition) (files : String → CacheFile) (json_file : String → String)
    (before : List String) (d : String) (dirs : List String) (j : ResultJson)
    → n.search ≡ get_cached_result files json_file j.audio_file_hash (before ++ d ∷ dirs)
    → All (IsSkipped files json_file j.audio_file_hash) before
    → files (json_file d) ≡ hashed j
    → recognize n ≡ from_json n (json_file d) j
unfolding recognize
recognize-cached n files json_file before d dirs j searched skipped there =
    let found = searched ∙ search_finds files json_file before d dirs j skipped there in
    elim (Bool-cases (succeeded j)) [
      | inl good ↦ rw (found, good) refl
      | inr bad ↦ rw (found, bad) refl
    ]

abbrev pub down_result : Recognition → SpeechSdkWorkItemResult
down_result n = record {
  base = record {
    filepath = n.filepath;
    passed = false;
    endpoint = n.host;
    attempts = 1;
    can_retry = true;
    cached = false;
    error_type = some "EndpointDownError";
    failed_reason = some "Target failed.";
  };
  audio_duration = none;
}

-- A recognition without a cached success, on an endpoint that its checker finds down, is not tried
-- again on that endpoint: the recognizer is called once, and its result is a failure with one
-- attempt that may be retried.
pub recognize_file_retry-endpoint_down :
    (run : ℕ → Recognition) (json : Option ResultJson)
    → (run 0).search ≡ returns (none, json)
    → (run 0).healthy ≡ false
    → recognize_file_retry (λ i. recognize (run i)) ≡ some (down_result (run 0), 1)
unfolding recognize recognize_in_subproc
recognize_file_retry-endpoint_down run json searched down =
    recognize_file_retry-cases (λ i. recognize (run i))
    ∙ rw (recognize, try_block, searched, recognize_in_subproc, down) refl
