-- ===== src/Speech/Session.antt =====
-- batchkit_examples/speech_sdk/recognize.py: FileRecognizer.__recognize, from the resumed offset over the
-- callbacks of the Speech SDK to the result. Times count from the beginning of the audio, in time units.
use batch_processing_kit.Prelude.{
  ℕ, ◌+◌, Bool, true, false, ◌&&◌, List, [], ◌∷◌, ◌++◌, Option, none, some, String, if◌then◌else◌,
  leb, ltb, ◌==◌, nat_eq,
}
use batch_processing_kit.Prelude.Int.{ℤ}
use batch_processing_kit.Speech.{
  ExceptionClass, cancellation, failed_recognition, another, Try, returns, raises,
}
use batch_processing_kit.Speech.Results.{Segment, FinalJson, populate_json_results}

-- The JSON of a result: what a later recognition resumes from.
pub record RecognitionJson : Type 0 where
  pub transcription_succeeded : Bool
  pub audio_length : ℕ
  pub last_processed : ℕ
  pub final_json : FinalJson

-- What a recognition is given: whether it was cancelled before, the outcome of `convert_audio`, the JSON
-- of an earlier run, the options of the request, and the outcome of `write_json_file_atomic`.
pub record Setup : Type 0 where
  pub is_cancelled : Bool
  pub converted : Try (String × ℕ)
  pub json_data : Option RecognitionJson
  pub allow_resume : Bool
  pub enable_sentiment : Bool
  pub nbest : ℤ
  pub written : Try (Unit {0})

-- The offset, the segments and the combined results to begin with.
abbrev nothing_before : ℕ × FinalJson
nothing_before = (0, record { segment_results = []; combined_results = [] })

abbrev resumed : Option RecognitionJson → ℕ × FinalJson
resumed none = nothing_before
resumed (some j) = (j.last_processed, j.final_json)

unfoldable pub beginning : Setup → ℕ × FinalJson
beginning u = if u.allow_resume then resumed u.json_data else nothing_before

-- The variables that the callbacks share.
pub record Session : Type 0 where
  pub json_result_list : List Segment
  pub last_processed : ℕ
  pub is_success : Bool
  pub error_details : Option String
  pub done_event : Bool

-- The events of the Speech SDK. A segment is none where the event has no JSON.
pub data SdkEvent : Type 0 where
  recognized_speech : Option Segment → SdkEvent
  no_speech : SdkEvent
  session_stopped : SdkEvent
  canceled : Bool → String → SdkEvent

-- `segment_json["Offset"] + segment_json["Duration"]`; `none` is the KeyError of a missing one.
abbrev pub sum_of : Option ℕ → Option ℕ → Option ℕ
sum_of (some o) (some d) = some (o + d)
sum_of none d = none
sum_of (some o) none = none

abbrev pub append_segment : Segment → Session → Session
append_segment g s = record s { json_result_list = s.json_result_list ++ g ∷ [] }

abbrev pub set_done : Session → Session
set_done s = record s { done_event = true }

-- The end of the callback: early cancellation by the token.
abbrev pub checked_token : Bool → Session → Session
checked_token cancelled s = if cancelled then set_done s else s

abbrev pub processed : ℕ → Bool → Session → Option ℕ → Session
processed start cancelled s none = s
processed start cancelled s (some e) =
    checked_token cancelled (record s { last_processed = start + e })

-- `audio_recognized`, with the state of the cancellation token.
unfoldable pub audio_recognized : ℕ → Bool → Option Segment → Session → Session
audio_recognized start cancelled none s = checked_token cancelled s
audio_recognized start cancelled (some g) s =
    processed start cancelled (append_segment g s) (sum_of g.timing.offset g.timing.duration)

-- An error within the last 60 seconds is tolerated in sentiment mode.
abbrev pub is_tolerated : Bool → ℕ → Session → Bool
is_tolerated enable_sentiment audio_duration s =
    enable_sentiment && leb audio_duration (s.last_processed + 600000000)

abbrev pub failed_by : String → Session → Session
failed_by details s = record s { is_success = false; error_details = some details }

-- `stop_continuous` of an event whose reason is an error, or of another.
unfoldable pub stop_continuous : Bool → ℕ → Option String → Session → Session
stop_continuous enable_sentiment audio_duration none s = set_done s
stop_continuous enable_sentiment audio_duration (some details) s =
    set_done (if is_tolerated enable_sentiment audio_duration s then s else failed_by details s)

-- A callback, with the state of the cancellation token.
unfoldable pub callback : Setup → ℕ → ℕ → Bool → SdkEvent → Session → Session
callback u start audio_duration cancelled (recognized_speech g) s =
    audio_recognized start cancelled g s
callback u start audio_duration cancelled no_speech s = checked_token cancelled s
callback u start audio_duration cancelled session_stopped s =
    stop_continuous u.enable_sentiment audio_duration none s
callback u start audio_duration cancelled (canceled is_error details) s =
    stop_continuous u.enable_sentiment audio_duration (if is_error then some details else none) s

unfoldable pub callbacks : Setup → ℕ → ℕ → List (Bool × SdkEvent) → Session → Session
callbacks u start audio_duration [] s = s
callbacks u start audio_duration ((cancelled, e) ∷ events) s =
    callbacks u start audio_duration events (callback u start audio_duration cancelled e s)

-- The waits, with the events of each: until the event is set, or a wait has passed without progress.
-- `none` is a loop that still waits.
unfoldable pub waits : Setup → ℕ → ℕ → List (List (Bool × SdkEvent)) → Session → Option Session
waits u start audio_duration [] s = none
waits u start audio_duration (events ∷ rounds) s =
    let s' = callbacks u start audio_duration events s in
    let later = waits u start audio_duration rounds s' in
    if s'.done_event
    then some s'
    else if s'.last_processed == s.last_processed
    then some (failed_by "Speech SDK failed to make any forward progress" s')
    else later

abbrev pub fresh : ℕ → Session
fresh start = record {
  json_result_list = [];
  last_processed = start;
  is_success = true;
  error_details = none;
  done_event = false;
}

-- The recognition starts if there is audio left.
unfoldable pub listens : Setup → ℕ → ℕ → List (List (Bool × SdkEvent)) → Option Session
listens u start audio_duration rounds =
    if ltb start audio_duration
    then waits u start audio_duration rounds (fresh start)
    else some (set_done (fresh start))

-- How a recognition ends, and the JSON that it writes.
pub record Ended : Type 0 where
  pub outcome : Try ℕ
  pub json : Option RecognitionJson

abbrev pub raising : ExceptionClass → String → Option RecognitionJson → Ended
raising c s j = record { outcome = raises (record { raised_class = c; text = s }); json = j }

abbrev pub details_text : Option String → String
details_text none = "None"
details_text (some s) = s

abbrev pub reported_as : ℕ → Session → RecognitionJson → Ended
reported_as audio_duration s j =
    if s.is_success
    then record { outcome = returns audio_duration; json = some j }
    else raising failed_recognition (details_text s.error_details) (some j)

abbrev pub after_write : Try (Unit {0}) → ℕ → Session → RecognitionJson → Ended
after_write (raises e) audio_duration s j = record { outcome = raises e; json = none }
after_write (returns tt) audio_duration s j = reported_as audio_duration s j

abbrev pub json_of : ℕ → Session → FinalJson → RecognitionJson
json_of audio_duration s f = record {
  transcription_succeeded = s.is_success;
  audio_length = audio_duration;
  last_processed = s.last_processed;
  final_json = f;
}

abbrev pub concluded : Try (Unit {0}) → ℕ → Session → Option FinalJson → Ended
concluded written audio_duration s none =
    raising (another "IndexError") "list index out of range" none
concluded written audio_duration s (some f) =
    after_write written audio_duration s (json_of audio_duration s f)

-- The end of the method; the JSON is written whether the recognition was a success or not.
unfoldable pub conclude_session : Setup → ℕ → Bool → Session → Ended
conclude_session u audio_duration cancelled s =
    if cancelled
    then raising cancellation "" none
    else concluded u.written audio_duration s
        (populate_json_results u.nbest (beginning u).1 s.json_result_list (beginning u).0)

abbrev pub after_listening : Setup → ℕ → Bool → Option Session → Option Ended
after_listening u audio_duration cancelled none = none
after_listening u audio_duration cancelled (some s) =
    some (conclude_session u audio_duration cancelled s)

abbrev pub of_audio : Setup → List (List (Bool × SdkEvent)) → Bool → Try (String × ℕ) → Option Ended
of_audio u rounds cancelled (raises e) = some (record { outcome = raises e; json = none })
of_audio u rounds cancelled (returns (file, audio_duration)) =
    after_listening u audio_duration cancelled (listens u (beginning u).0 audio_duration rounds)

-- `__recognize`: the events of its waits, and whether the token is set after them. `none` is a
-- recognition that still waits.
unfoldable pub recognize_file : Setup → List (List (Bool × SdkEvent)) → Bool → Option Ended
recognize_file u rounds cancelled =
    if u.is_cancelled
    then some (raising cancellation "" none)
    else of_audio u rounds cancelled u.converted
