-- ===== src/Speech/Placed.antt =====
-- batchkit_examples/speech_sdk/recognize.py: what populate_json_results makes of each segment.
use batch_processing_kit.Prelude.{
  ℕ, ◌≡◌, ◌≢◌, refl, List, [], ◌∷◌, ◌++◌, map, Option, none, some, All, append_assoc, append-nil,
}
use batch_processing_kit.Prelude.Int.{ℤ}
use batch_processing_kit.Prelude.Text.{join}
use batch_processing_kit.Speech.Results.{
  Top, Segment, Combined, FinalJson, slice, fix_words, Lists, segment_of, push_segment, push_top,
  add_segments, nothing_yet, populate_json_results,
}

-- What one recognized segment becomes, on its own.
abbrev placed_tops : ℤ → ℕ → Option (List Top) → Option (List Top)
placed_tops n start none = none
placed_tops n start (some []) = some []
placed_tops n start (some (t ∷ tops)) = some (slice n (fix_words start t ∷ tops))

abbrev pub placed : ℤ → ℕ → Segment → Segment
placed n start s = segment_of start (placed_tops n start s.nbest) s

-- The top results of the segments that have some.
abbrev top_of : Option (List Top) → List Top
top_of none = []
top_of (some []) = []
top_of (some (t ∷ tops)) = t ∷ []

abbrev pub tops_of : List Segment → List Top
tops_of [] = []
tops_of (s ∷ results) = top_of s.nbest ++ tops_of results

-- The segment's NBest, where it has one, is not empty.
abbrev pub HasTop : Segment → Type 0
HasTop s = ¬ (s.nbest ≡ some [])

abbrev gathered : ℤ → ℕ → List Segment → Lists → Lists
gathered n start results l = record {
  lexicals = l.lexicals ++ map (λ (t : Top). t.lexical) (tops_of results);
  itns = l.itns ++ map (λ (t : Top). t.itn) (tops_of results);
  masked_itns = l.masked_itns ++ map (λ (t : Top). t.masked_itn) (tops_of results);
  displays = l.displays ++ map (λ (t : Top). t.display) (tops_of results);
  segments = l.segments ++ map (placed n start) results;
}

add_segment-gathered :
    (n : ℤ) (start : ℕ) (s : Segment) (results : List Segment) (l : Lists)
    (tops : Option (List Top))
    → s.nbest ≡ tops
    → tops ≢ some []
    → ((l' : Lists) → add_segments n start results l' ≡ some (gathered n start results l'))
    → add_segments n start (s ∷ results) l ≡ some (gathered n start (s ∷ results) l)
unfolding add_segments
add_segment-gathered n start s results l none e h ih =
    rw
      (
        e,
        ih (push_segment start none s l),
        append_assoc l.segments (segment_of start none s ∷ []) (map (placed n start) results),
      )
      refl
add_segment-gathered n start s results l (some []) e h ih = absurd (h refl)
add_segment-gathered n start s results l (some (t ∷ tops)) e h ih =
    rw
      (
        e,
        ih (push_segment start (some (slice n (fix_words start t ∷ tops))) s (push_top t l)),
        append_assoc l.segments
            (segment_of start (some (slice n (fix_words start t ∷ tops))) s ∷ [])
            (map (placed n start) results),
        append_assoc l.lexicals (t.lexical ∷ []) (map (λ (t : Top). t.lexical) (tops_of results)),
        append_assoc l.itns (t.itn ∷ []) (map (λ (t : Top). t.itn) (tops_of results)),
        append_assoc l.masked_itns (t.masked_itn ∷ [])
            (map (λ (t : Top). t.masked_itn) (tops_of results)),
        append_assoc l.displays (t.display ∷ []) (map (λ (t : Top). t.display) (tops_of results)),
      )
      refl

add_segments-gathered :
    (n : ℤ) (start : ℕ) (results : List Segment) (l : Lists)
    → All HasTop results
    → add_segments n start results l ≡ some (gathered n start results l)
unfolding add_segments
add_segments-gathered n start [] l h =
    rw
      (
        append-nil l.lexicals,
        append-nil l.itns,
        append-nil l.masked_itns,
        append-nil l.displays,
        append-nil l.segments,
      )
      refl
add_segments-gathered n start (s ∷ results) l h =
    add_segment-gathered n start s results l s.nbest refl h.0
      (λ l'. add_segments-gathered n start results l' h.1)

-- The combined texts of some segments.
abbrev pub combined_text : List Segment → Combined
combined_text results = record {
  lexical = join " " (map (λ (t : Top). t.lexical) (tops_of results));
  itn = join " " (map (λ (t : Top). t.itn) (tops_of results));
  masked_itn = join " " (map (λ (t : Top). t.masked_itn) (tops_of results));
  display = join " " (map (λ (t : Top). t.display) (tops_of results));
}

-- Where no segment has an empty NBest, the loop over the recognized segments does to each on its own
-- what `placed` says: it shifts its times by the start of the recognition and cuts its NBest. They
-- follow the segments of the runs before, in order, and one combined result follows those of the
-- runs before: the joined top results of this run alone.
pub populate_json_results-placed :
    (n : ℤ) (j : FinalJson) (results : List Segment) (start : ℕ)
    → All HasTop results
    → populate_json_results n j results start
      ≡ some (record {
        segment_results = j.segment_results ++ map (placed n start) results;
        combined_results = j.combined_results ++ combined_text results ∷ [];
      })
unfolding populate_json_results join
populate_json_results-placed n j [] start h = rw (append-nil j.segment_results) refl
populate_json_results-placed n j (s ∷ results) start h =
    rw (add_segments-gathered n start (s ∷ results) (nothing_yet j) h) refl
