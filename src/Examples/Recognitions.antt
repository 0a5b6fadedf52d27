-- ===== src/Examples/Recognitions.antt =====
-- Recognitions of one audio file, their segments, and a submission for speech.
use batch_processing_kit.Prelude.{
  Bool, ℕ, ◌≡◌, ◌↔◌, ◌≢◌, refl, true, false, List, [], ◌∷◌, map, Option, none, some, String,
  if◌then◌else◌, ◌==◌, ◌+◌, arith, string_eq, nat_eq, inl, inr,
}
use batch_processing_kit.Prelude.Int.{pos}
use batch_processing_kit.Speech.{SpeechSdkWorkItemResult, returns}
use batch_processing_kit.Speech.Waiting.{Round, await_done, still_waiting, await_done_ends}
use batch_processing_kit.Speech.Retry.{
  recognize_file_retry, with_attempts, recognize_file_retry-cases,
}
use batch_processing_kit.Speech.Recognize.{
  ResultJson, CacheFile, absent, hashed, Recognition, killed, get_cached_result, recognize,
}
use batch_processing_kit.Speech.Outcomes.{from_json, recognize-cached}
use batch_processing_kit.Speech.Results.{Timing, Top, Segment, FinalJson, populate_json_results}
use batch_processing_kit.Speech.Placed.{placed, combined_text, populate_json_results-placed}
use batch_processing_kit.Speech.Audio.{WavFileReader, read_into}
use batch_processing_kit.Speech.Reading.{read_into-channels}
use batch_processing_kit.Speech.Summary.{
  RunSummary, run_summary, unknown, count_where, may_run_again, cached_in_retry,
  run_summary-partition,
}
use batch_processing_kit.Speech.Request
use batch_processing_kit.Speech.Request.{
  SpeechBatchRequest, JsonValue, text, boolean, integer, texts, other, request, missing, json_args,
  item, to_bool,
}
use batch_processing_kit.Speech.Accepted.{IsSubmission, from_json-accepted}
use batch_processing_kit.Speech.Session.{
  RecognitionJson, Setup, SdkEvent, recognized_speech, canceled,
}
use batch_processing_kit.Examples.{failure, success}

-- The Speech SDK reports once, after 50 units, and then no more.
abbrev stuck : ℕ → Round
stuck i = record { watermark = 50; done = false; offset = 50 }

await_done_ends_example : await_done stuck 0 101 ≢ still_waiting
await_done_ends_example = await_done_ends 100 stuck (λ i. (omega arith, omega arith, omega arith))

abbrev transient : ℕ → SpeechSdkWorkItemResult
transient i = record { base = failure "a.wav" 1; audio_duration = none }

recognize_file_retry-cases_example :
    recognize_file_retry transient ≡ some (with_attempts 3 (transient 1), 2)
recognize_file_retry-cases_example = recognize_file_retry-cases transient

abbrev earlier : ResultJson
earlier = record {
  audio_file_hash = "c0ffee";
  transcription_status = some "Succeeded";
  audio_length = 70000000;
  last_processed_offset = 70000000;
}

abbrev cache : String → CacheFile
cache path = if path == "old/a_wav.json" then hashed earlier else absent

abbrev json_in : String → String
json_in d = if d == "old" then "old/a_wav.json" else "out/a_wav.json"

abbrev recognition : Recognition
recognition = record {
  filepath = "a.wav";
  host = "ws://localhost:5000";
  search = get_cached_result cache json_in "c0ffee" ("out" ∷ "old" ∷ []);
  healthy = true;
  child = λ j. killed 9;
  target_path = "out/a_wav.json";
  copyfile = λ src target. returns tt;
}

recognize-cached_example : recognize recognition ≡ from_json recognition "old/a_wav.json" earlier
recognize-cached_example =
    recognize-cached recognition cache json_in ("out" ∷ []) "old" [] earlier refl (inl refl, tt)
      refl

abbrev timing : ℕ → Timing
timing n = record {
  offset = some n;
  duration = some 10000000;
  offset_in_seconds = none;
  duration_in_seconds = none;
}

abbrev top : String → Top
top s = record { lexical = s; itn = s; masked_itn = s; display = s; words = some (timing 0 ∷ []) }

abbrev segments : List Segment
segments =
    record { has_channel = false; timing = timing 5; nbest = some (top "hello" ∷ top "hallo" ∷ []) }
    ∷ record { has_channel = false; timing = timing 9; nbest = none }
    ∷ []

abbrev empty_json : FinalJson
empty_json = record { segment_results = []; combined_results = [] }

populate_json_results-placed_example :
    populate_json_results (pos 1) empty_json segments 20000000
    ≡ some (record {
      segment_results = map (placed (pos 1) 20000000) segments;
      combined_results = combined_text segments ∷ [];
    })
populate_json_results-placed_example =
    populate_json_results-placed (pos 1) empty_json segments 20000000 (λ e. cc, (λ e. cc, tt))

-- Two frames of a stereo file.
abbrev stereo : WavFileReader
stereo = record {
  wave = record {
    frame_rate = 8000;
    num_channels = 2;
    sample_width = 2;
    uncompressed = true;
    num_frames = 2;
  };
  pcm = 1 ∷ 0 ∷ 2 ∷ 0 ∷ 3 ∷ 0 ∷ 4 ∷ 0 ∷ [];
  position = 0;
}

read_into-channels_example : (read_into 4 stereo).0 ≡ none
read_into-channels_example =
    read_into-channels 4 stereo (omega arith) (omega arith) (omega arith) (inr refl)

abbrev results : List (String × Option SpeechSdkWorkItemResult)
results =
    ("a.wav", some (record { base = success "a.wav"; audio_duration = some 70000000 }))
    ∷ ("b.wav", some (record { base = failure "b.wav" 2; audio_duration = none }))
    ∷ ("c.wav", none)
    ∷ []

abbrev summary : RunSummary
summary = run_summary results 1 1 1

run_summary-partition_example :
    (summary.passed + summary.failed + summary.in_retry + unknown results ≡ summary.total)
    × (summary.in_retry
        ≡ count_where may_run_again summary.processed_files
          + count_where cached_in_retry summary.processed_files)
run_summary-partition_example = run_summary-partition results 1 1 1

abbrev submission : List (String × JsonValue)
submission =
    ("files", texts ("/in/a.wav" ∷ []))
    ∷ ("language", text "en-US")
    ∷ ("diarization", text "None")
    ∷ ("nbest", integer (pos 1))
    ∷ ("profanity", text "Masked")
    ∷ ("allow_resume", boolean true)
    ∷ ("sentiment", text "true")
    ∷ ("combine_results", text "False")
    ∷ []

-- What it becomes: its JSON true is lost.
abbrev accepted_request : SpeechBatchRequest
accepted_request = record {
  files = "/in/a.wav" ∷ [];
  language = text "en-US";
  diarization = text "None";
  nbest = integer (pos 1);
  profanity = text "Masked";
  allow_resume = false;
  enable_sentiment = true;
  combine_results = false;
}

from_json-accepted_example :
    (Request.from_json (λ f. f) submission ≡ request accepted_request)
    ↔ IsSubmission (λ f. f) submission accepted_request
from_json-accepted_example = from_json-accepted (λ f. f) submission accepted_request

-- A resumed recognition that hears one more segment, and then loses its endpoint.
abbrev earlier_run : RecognitionJson
earlier_run = record {
  transcription_succeeded = false;
  audio_length = 70000000;
  last_processed = 20000000;
  final_json = record {
    segment_results = segments;
    combined_results = combined_text segments ∷ [];
  };
}

abbrev resuming : Setup
resuming = record {
  is_cancelled = false;
  converted = returns ("a.wav", 70000000);
  json_data = some earlier_run;
  allow_resume = true;
  enable_sentiment = false;
  nbest = pos 1;
  written = returns tt;
}

abbrev heard : List (List (Bool × SdkEvent))
heard =
    ((
      false,
      recognized_speech
          (some (record { has_channel = false; timing = timing 5; nbest = some (top "bye" ∷ []) })),
    )
      ∷ (false, canceled true "connection lost")
      ∷ [])
    ∷ []
