-- ===== src/Speech/Progress.antt =====
-- batchkit_examples/speech_sdk/recognize.py: a recognition never goes back behind the offset that it
-- resumes from, nor loses the segments before it.
use batch_processing_kit.Prelude.{ℕ, ◌≤◌, ◌≡◌, List, [], ◌++◌, Option, none, some, nat_eq}
use batch_processing_kit.Speech.Results.{Segment, FinalJson, Lists}
use batch_processing_kit.Speech.Session.{RecognitionJson, Ended, Session}

-- Lists of the loop whose segments begin with those given.
abbrev BeginsWith : List Segment → Option Lists → Type 0
BeginsWith before none = Unit
BeginsWith before (some l) = (more : List Segment) × (l.segments ≡ before ++ more)

abbrev segments_of : Option Lists → List Segment
segments_of none = []
segments_of (some l) = l.segments

-- A result's JSON, where one is written, keeps what the recognition began with: its offset is not
-- before the first one, and its segments begin with those of the runs before.
abbrev pub IsProgress : ℕ × FinalJson → Option RecognitionJson → Type 0
IsProgress before none = Unit
IsProgress before (some j) =
    (before.0 ≤ j.last_processed)
    × ((more : List Segment) × (j.final_json.segment_results ≡ before.1.segment_results ++ more))

abbrev pub HasProgress : ℕ × FinalJson → Option Ended → Type 0
HasProgress before none = Unit
HasProgress before (some e) = IsProgress before e.json

-- The lists of results that are put into the final JSON.
abbrev Extends : FinalJson → Option FinalJson → Type 0
Extends before none = Unit
Extends before (some f) =
    (more : List Segment) × (f.segment_results ≡ before.segment_results ++ more)
