-- ===== src/Speech/Options.antt =====
-- batchkit_examples/speech_sdk/recognize.py: FileRecognizer's fields, and what it asks of the Speech
-- SDK for a recognition. `throttle` is in percent; the SDK's calls are recorded as values.
use batch_processing_kit.Prelude.{
  ℕ, ◌≡◌, refl, Bool, true, false, not, ◌&&◌, List, [], ◌∷◌, ◌++◌, Option, none, some, String,
  if◌then◌else◌, ◌==◌, string_eq, ltb,
}
use batch_processing_kit.Prelude.Dict.{contains, keys}
use batch_processing_kit.Prelude.Text.{◌<>◌}
use batch_processing_kit.Files.{OsPath, drop_first}

pub record Recognizer : Type 0 where
  pub subscription : Option String
  pub language : String
  pub diarization : String
  pub profanity : String
  pub enable_sentiment : Bool
  pub log_folder : Option String
  pub allow_resume : Bool
  pub throttle : ℕ

pub data ProfanityOption : Type 0 where
  removed raw masked : ProfanityOption

-- A property of the request's URL, or one of the SDK's by its name; a number stands for its text.
pub data Property : Type 0 where
  service : String → Property
  named : String → Property
  percentage : ℕ → Property

-- How the recognizer reads its audio: from the file, or from a stream that starts at an offset.
pub data AudioConfig : Type 0 where
  from_file : String → AudioConfig
  from_stream : String → ℕ → AudioConfig

pub record SpeechConfig : Type 0 where
  pub properties : List (String × Property)
  pub profanity : ProfanityOption
  pub audio : AudioConfig

abbrev sentiment_properties : Bool → List (String × Property)
sentiment_properties true =
    ("speechcontext-PhraseOutput.Detailed.Options", service "[\"Sentiment\",\"WordTimings\"]")
    ∷ ("speechcontext-phraseDetection.sentimentanalysis.enabled", service "true")
    ∷ ("speechcontext-phraseDetection.sentimentAnalysis.modelversion", service "latest")
    ∷ []
sentiment_properties false =
    ("speechcontext-PhraseOutput.Detailed.Options", service "[\"WordTimings\"]") ∷ []

abbrev diarization_properties : Bool → String → List (String × Property)
diarization_properties true mode = []
diarization_properties false mode =
    ("speechcontext-phraseDetection.speakerDiarization.mode", service mode) ∷ []

-- The log file of the SDK: "{base}_{ext}.{process}.sdk.log".
abbrev log_filename : OsPath → String → String → String
log_filename p audio_file_basename process =
    (p.splitext audio_file_basename).0
    <> ("_" <> (drop_first (p.splitext audio_file_basename).1 <> ("." <> (process <> ".sdk.log"))))

abbrev log_properties : OsPath → String → String → Option String → List (String × Property)
log_properties p file process none = []
log_properties p file process (some folder) =
    ("Speech_LogFilename", named (p.join folder (log_filename p file process)))
    ∷ ("SPEECH-FileLogSizeMB", named "10")
    ∷ []

unfoldable pub profanity_option : String → ProfanityOption
profanity_option mode = if mode == "Removed" then removed else if mode == "Raw" then raw else masked

-- The calls of `set_service_property`, `set_property` and `set_property_by_name`, in their order.
unfoldable pub set_properties : OsPath → String → String → Recognizer → List (String × Property)
set_properties p audio_file_basename process r =
    ("speechcontext-PhraseOutput.Format", service "Detailed")
      ∷ ("punctuation", service "implicit")
      ∷ sentiment_properties r.enable_sentiment
    ++ diarization_properties (r.diarization == "None") r.diarization
    ++ ("SPEECH-AudioThrottleAsPercentageOfRealTime", percentage r.throttle)
      ∷ ("SPEECH-TransmitLengthBeforThrottleMs", named "0")
      ∷ ("SPEECH-MaxBufferSizeSeconds", named "1800")
      ∷ log_properties p audio_file_basename process r.log_folder

unfoldable pub audio_config : Recognizer → String → ℕ → AudioConfig
audio_config r converted_audio_file start_offset =
    if r.allow_resume && ltb 0 start_offset
    then from_stream converted_audio_file start_offset
    else from_file converted_audio_file

unfoldable pub speech_config : OsPath → String → String → String → Recognizer → ℕ → SpeechConfig
speech_config p audio_file_basename converted_audio_file process r start_offset = record {
  properties = set_properties p audio_file_basename process r;
  profanity = profanity_option r.profanity;
  audio = audio_config r converted_audio_file start_offset;
}

abbrev distinct : List String → Bool
distinct [] = true
distinct (x ∷ xs) = not (contains x xs) && distinct xs

distinct_names :
    (p : OsPath) (file process mode : String) (throttle : ℕ) (sentiment undiarized : Bool)
    (folder : Option String)
    → distinct (
        keys (
          ("speechcontext-PhraseOutput.Format", service "Detailed")
            ∷ ("punctuation", service "implicit")
            ∷ sentiment_properties sentiment
          ++ diarization_properties undiarized mode
          ++ ("SPEECH-AudioThrottleAsPercentageOfRealTime", percentage throttle)
            ∷ ("SPEECH-TransmitLengthBeforThrottleMs", named "0")
            ∷ ("SPEECH-MaxBufferSizeSeconds", named "1800")
            ∷ log_properties p file process folder))
      ≡ true
unfolding contains
distinct_names p file process mode throttle true true none = refl
distinct_names p file process mode throttle true true (some f) = refl
distinct_names p file process mode throttle true false none = refl
distinct_names p file process mode throttle true false (some f) = refl
distinct_names p file process mode throttle false true none = refl
distinct_names p file process mode throttle false true (some f) = refl
distinct_names p file process mode throttle false false none = refl
distinct_names p file process mode throttle false false (some f) = refl

-- Whatever the options of a request are, no property of the Speech SDK is set twice.
pub set_properties-distinct :
    (p : OsPath) (file process : String) (r : Recognizer)
    → distinct (keys (set_properties p file process r)) ≡ true
unfolding set_properties
set_properties-distinct p file process r =
    distinct_names p file process r.diarization r.throttle r.enable_sentiment
      (r.diarization == "None") r.log_folder
