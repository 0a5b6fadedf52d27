-- ===== src/Speech/Results.antt =====
-- batchkit_examples/speech_sdk/recognize.py: populate_json_results, which puts the recognized segments
-- and their combined texts into the final JSON. The keys of a top result that the Speech SDK always
-- gives are fields; a time in seconds is the number of time units that is divided by TIME_UNIT.
use batch_processing_kit.Prelude.{
  ℕ, suc, ◌+◌, ◌-◌, Bool, true, List, [], ◌∷◌, ◌++◌, map, Option, none, some, String, length, take,
}
use batch_processing_kit.Prelude.Int.{ℤ, pos, negsuc}
use batch_processing_kit.Prelude.Text.{join}

pub record Timing : Type 0 where
  pub offset : Option ℕ
  pub duration : Option ℕ
  pub offset_in_seconds : Option ℕ
  pub duration_in_seconds : Option ℕ

pub record Top : Type 0 where
  pub lexical : String
  pub itn : String
  pub masked_itn : String
  pub display : String
  pub words : Option (List Timing)

-- A segment. `has_channel` tells whether ChannelNumber, which is None, is there.
pub record Segment : Type 0 where
  pub has_channel : Bool
  pub timing : Timing
  pub nbest : Option (List Top)

pub record Combined : Type 0 where
  pub lexical : String
  pub itn : String
  pub masked_itn : String
  pub display : String

pub record FinalJson : Type 0 where
  pub segment_results : List Segment
  pub combined_results : List Combined

abbrev pub shifted : ℕ → Option ℕ → Option ℕ
shifted start none = none
shifted start (some o) = some (o + start)

abbrev pub or_else : Option ℕ → Option ℕ → Option ℕ
or_else none old = old
or_else (some x) old = some x

-- `fix_offsets`, where `start` is `int(start_offset_secs * TIME_UNIT)`.
unfoldable pub fix_offsets : ℕ → Timing → Timing
fix_offsets start t = record {
  offset = shifted start t.offset;
  duration = t.duration;
  offset_in_seconds = or_else (shifted start t.offset) t.offset_in_seconds;
  duration_in_seconds = or_else t.duration t.duration_in_seconds;
}

-- `nbest_list[0:n]`
unfoldable pub slice : ℤ → List Top → List Top
slice (pos n) tops = take n tops
slice (negsuc n) tops = take (length tops - suc n) tops

unfoldable pub fix_words : ℕ → Top → Top
fix_words start t = record t {
  words = elim t.words [ none ↦ none | some ws ↦ some (map (fix_offsets start) ws) ];
}

-- The loop's lists, and `final_json["SegmentResults"]`.
pub record Lists : Type 0 where
  pub lexicals : List String
  pub itns : List String
  pub masked_itns : List String
  pub displays : List String
  pub segments : List Segment

abbrev pub segment_of : ℕ → Option (List Top) → Segment → Segment
segment_of start tops s = record {
  has_channel = true;
  timing = fix_offsets start s.timing;
  nbest = tops;
}

abbrev pub push_segment : ℕ → Option (List Top) → Segment → Lists → Lists
push_segment start tops s l = record l { segments = l.segments ++ segment_of start tops s ∷ [] }

abbrev pub push_top : Top → Lists → Lists
push_top t l = record {
  lexicals = l.lexicals ++ t.lexical ∷ [];
  itns = l.itns ++ t.itn ∷ [];
  masked_itns = l.masked_itns ++ t.masked_itn ∷ [];
  displays = l.displays ++ t.display ∷ [];
  segments = l.segments;
}

-- One round. The top result is one object with the head of the slice. `none` is the IndexError of an
-- empty NBest.
abbrev pub add_tops : ℤ → ℕ → Segment → Option (List Top) → Lists → Option Lists
add_tops n start s none l = some (push_segment start none s l)
add_tops n start s (some []) l = none
add_tops n start s (some (t ∷ tops)) l =
    some (push_segment start (some (slice n (fix_words start t ∷ tops))) s (push_top t l))

unfoldable pub add_segments : ℤ → ℕ → List Segment → Lists → Option Lists
add_segments n start [] l = some l
add_segments n start (s ∷ results) l = elim (add_tops n start s s.nbest l) [
  | none ↦ none
  | some l' ↦ add_segments n start results l'
]

abbrev pub combine : Lists → Combined
combine l = record {
  lexical = join " " l.lexicals;
  itn = join " " l.itns;
  masked_itn = join " " l.masked_itns;
  display = join " " l.displays;
}

abbrev pub finished : FinalJson → Option Lists → Option FinalJson
finished j none = none
finished j (some l) = some (record {
  segment_results = l.segments;
  combined_results = j.combined_results ++ combine l ∷ [];
})

abbrev pub nothing_yet : FinalJson → Lists
nothing_yet j = record {
  lexicals = [];
  itns = [];
  masked_itns = [];
  displays = [];
  segments = j.segment_results;
}

abbrev pub no_text : Combined
no_text = record { lexical = ""; itn = ""; masked_itn = ""; display = "" }

unfoldable pub populate_json_results : ℤ → FinalJson → List Segment → ℕ → Option FinalJson
populate_json_results n j [] start =
    some (record j { combined_results = j.combined_results ++ no_text ∷ [] })
populate_json_results n j (s ∷ results) start =
    finished j (add_segments n start (s ∷ results) (nothing_yet j))
