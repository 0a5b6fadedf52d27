-- ===== src/Speech/Request.antt =====
-- batchkit_examples/speech_sdk/batch_request.py and work_item.py: a batch request from the JSON of a
-- submission or from a configuration, its work items, and their priorities.
use batch_processing_kit.Prelude.{
  Bool, true, false, not, ◌||◌, List, [], ◌∷◌, map, Option, none, some, String, if◌then◌else◌, ◌==◌,
  string_eq, nat_eq,
}
use batch_processing_kit.Prelude.Int.{ℤ, pos, negsuc, ◌-ℤ◌}
use batch_processing_kit.Prelude.Text.{codes, codes_eq, lower}
use batch_processing_kit.Prelude.Dict.{contains, lookup, insert, keys}

-- A value of the request's JSON. `other` is a value of any other kind: the `str` of none of them is
-- "true" or "false" in any case.
pub data JsonValue : Type 0 where
  text : String → JsonValue
  boolean : Bool → JsonValue
  integer : ℤ → JsonValue
  texts : List String → JsonValue
  other : JsonValue

-- `str.lower(str(x)) in ["true", "false"]`
abbrev pub reads_as_boolean : JsonValue → Bool
reads_as_boolean (text s) = lower s == codes "true" || lower s == codes "false"
reads_as_boolean (boolean b) = true
reads_as_boolean v = false

-- batchkit/batch_request.py, `to_bool`: membership in a list of strings, which no other value is.
unfoldable pub to_bool : JsonValue → Bool
to_bool (text s) = contains s ("True" ∷ "true" ∷ "t" ∷ "T" ∷ "y" ∷ "Y" ∷ "yes" ∷ "Yes" ∷ [])
to_bool v = false

-- A Python `bool` is an `int`.
abbrev pub is_int : JsonValue → Bool
is_int (integer n) = true
is_int (boolean b) = true
is_int v = false

pub record SpeechBatchRequest : Type 0 where
  pub files : List String
  pub language : JsonValue
  pub diarization : JsonValue
  pub nbest : JsonValue
  pub profanity : JsonValue
  pub allow_resume : Bool
  pub enable_sentiment : Bool
  pub combine_results : Bool

pub data FromJson : Type 0 where
  request : SpeechBatchRequest → FromJson
  bad_request : String → FromJson

abbrev pub json_args : List String
json_args =
    "files" ∷ "language" ∷ "diarization" ∷ "nbest" ∷ "profanity" ∷ "allow_resume" ∷ "sentiment"
    ∷ "combine_results" ∷ []

-- The first argument that is missing.
unfoldable pub missing : List String → List (String × JsonValue) → Option String
missing [] json = none
missing (arg ∷ args) json = if contains arg (keys json) then missing args json else some arg

-- `json[arg]` of an argument that is there.
unfoldable pub item : String → List (String × JsonValue) → JsonValue
item arg json = elim (lookup arg json) [ none ↦ other | some v ↦ v ]

-- The loop over the Boolean arguments: the JSON with them converted, or none where one is refused.
unfoldable pub convert_booleans :
    List String → List (String × JsonValue) → Option (List (String × JsonValue))
convert_booleans [] json = some json
convert_booleans (arg ∷ args) json =
    let rest = convert_booleans args (insert arg (boolean (to_bool (item arg json))) json) in
    if reads_as_boolean (item arg json) then rest else none

abbrev is_true : JsonValue → Bool
is_true (boolean b) = b
is_true v = false

-- The constructor, with `os.path.abspath` as a parameter.
abbrev made : (String → String) → List String → List (String × JsonValue) → SpeechBatchRequest
made abspath files json = record {
  files = map abspath files;
  language = item "language" json;
  diarization = item "diarization" json;
  nbest = item "nbest" json;
  profanity = item "profanity" json;
  allow_resume = is_true (item "allow_resume" json);
  enable_sentiment = is_true (item "sentiment" json);
  combine_results = is_true (item "combine_results" json);
}

abbrev pub from_files : (String → String) → List (String × JsonValue) → JsonValue → FromJson
from_files abspath json (texts files) = request (made abspath files json)
from_files abspath json v = bad_request "Request body argument 'files' was not List[str]"

abbrev pub from_converted : (String → String) → Option (List (String × JsonValue)) → FromJson
from_converted abspath none = bad_request "argument needs boolean in request body"
from_converted abspath (some json) = from_files abspath json (item "files" json)

abbrev pub from_present : (String → String) → List (String × JsonValue) → FromJson
from_present abspath json =
    if is_int (item "nbest" json)
    then from_converted abspath
        (convert_booleans ("allow_resume" ∷ "sentiment" ∷ "combine_results" ∷ []) json)
    else bad_request "Request body argument was not an integer"

unfoldable pub from_json : (String → String) → List (String × JsonValue) → FromJson
from_json abspath json = elim (missing json_args json) [
  | some arg ↦ bad_request "Missing argument (string) in request body"
  | none ↦ from_present abspath json
]

-- A SpeechSDKBatchConfig.
pub record SpeechBatchConfig : Type 0 where
  pub language : JsonValue
  pub nbest : JsonValue
  pub diarization : JsonValue
  pub profanity : JsonValue
  pub sentiment : Bool
  pub allow_resume : Bool
  pub combine_results : Bool

unfoldable pub from_config :
    (String → String) → List String → SpeechBatchConfig → SpeechBatchRequest
from_config abspath files c = record {
  files = map abspath files;
  language = c.language;
  diarization = c.diarization;
  nbest = c.nbest;
  profanity = c.profanity;
  allow_resume = c.allow_resume;
  enable_sentiment = c.sentiment;
  combine_results = c.combine_results;
}

pub record SpeechWorkItemRequest : Type 0 where
  pub filepath : String
  pub language : JsonValue
  pub nbest : JsonValue
  pub diarization : JsonValue
  pub profanity : JsonValue
  pub cache_search_dirs : List String
  pub output_folder : String
  pub log_dir : Option String
  pub allow_resume : Bool
  pub enable_sentiment : Bool
  pub cached_duration : Option ℤ

unfoldable pub make_work_items :
    SpeechBatchRequest → String → List String → Option String → List SpeechWorkItemRequest
make_work_items r output_dir dirs log_dir =
    map
      (λ f. record {
        filepath = f;
        language = r.language;
        nbest = r.nbest;
        diarization = r.diarization;
        profanity = r.profanity;
        cache_search_dirs = dirs;
        output_folder = output_dir;
        log_dir = log_dir;
        allow_resume = r.allow_resume;
        enable_sentiment = r.enable_sentiment;
        cached_duration = none;
      })
      r.files

-- The file of a work item: its duration in milliseconds, by the offsets of a segment pointer file or
-- by its header, or the error of either.
pub data DurationSource : Type 0 where
  no_file : DurationSource
  unreadable : DurationSource
  segment : ℤ → ℤ → DurationSource
  header : ℤ → DurationSource

abbrev truthy : Option ℤ → Bool
truthy none = false
truthy (some (pos n)) = not (n == 0)
truthy (some (negsuc n)) = true

abbrev measured : SpeechWorkItemRequest → DurationSource → Option ℤ × SpeechWorkItemRequest
measured w no_file = (none, w)
measured w unreadable = (none, w)
measured w (segment start end) =
    (some (end -ℤ start), record w { cached_duration = some (end -ℤ start) })
measured w (header d) = (some d, record w { cached_duration = some d })

-- `none` is an exception.
unfoldable pub duration : DurationSource → SpeechWorkItemRequest → Option ℤ × SpeechWorkItemRequest
duration source w = if truthy w.cached_duration then (w.cached_duration, w) else measured w source

abbrev or_unknown : Option ℤ → ℤ
or_unknown none = negsuc 0
or_unknown (some d) = d

unfoldable pub priority : DurationSource → SpeechWorkItemRequest → ℤ × SpeechWorkItemRequest
priority source w = let (d, w') = duration source w in (or_unknown d, w')
