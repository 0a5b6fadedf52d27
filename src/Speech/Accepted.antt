-- ===== src/Speech/Accepted.antt =====
-- batchkit_examples/speech_sdk/batch_request.py: what from_json makes of an accepted submission.
use batch_processing_kit.Prelude.{
  ◌≡◌, refl, Bool, ◌||◌, false, arith, true, List, [], ◌∷◌, map, none, some, String, if◌then◌else◌,
  ◌==◌, string_eq, nat_eq, ◌∙◌, ap, Option, ◌↔◌, sym, subst, Bool-cases, inl, inr,
}
use batch_processing_kit.Prelude.Text.{codes, codes_eq, lower}
use batch_processing_kit.Prelude.Dict.{insert, lookup-insert, contains}
use batch_processing_kit.Speech.Request.{
  JsonValue, text, integer, other, SpeechBatchRequest, reads_as_boolean, to_bool, is_int, json_args,
  missing, item, convert_booleans, FromJson, bad_request, from_files, from_converted, from_present,
  from_json, from_present, boolean, texts, request,
}

item-insert :
    (k arg : String) (v : JsonValue) (json : List (String × JsonValue))
    → item arg (insert k v json) ≡ (if k == arg then v else item arg json)
unfolding item
item-insert k arg v json = elim (Bool-cases (k == arg)) [
  | inl same ↦ rw (item, lookup-insert k arg v json, same) refl
  | inr apart ↦ rw (item, lookup-insert k arg v json, apart) refl
]

convert_next :
    (arg : String) (args : List String) (json : List (String × JsonValue)) (v : JsonValue)
    → item arg json ≡ v
    → reads_as_boolean v ≡ true
    → convert_booleans (arg ∷ args) json
      ≡ convert_booleans args (insert arg (boolean (to_bool v)) json)
unfolding convert_booleans
convert_next arg args json v e b = rw (e, b) refl

-- The Boolean arguments of the JSON are converted by `to_bool`, the others stay.
abbrev with_allow_resume : List (String × JsonValue) → List (String × JsonValue)
with_allow_resume json = insert "allow_resume" (boolean (to_bool (item "allow_resume" json))) json

abbrev with_sentiment : List (String × JsonValue) → List (String × JsonValue)
with_sentiment json =
    insert "sentiment" (boolean (to_bool (item "sentiment" json))) (with_allow_resume json)

abbrev with_booleans : List (String × JsonValue) → List (String × JsonValue)
with_booleans json =
    insert "combine_results" (boolean (to_bool (item "combine_results" json))) (with_sentiment json)

converted_items :
    (json : List (String × JsonValue))
    → reads_as_boolean (item "allow_resume" json) ≡ true
    → reads_as_boolean (item "sentiment" json) ≡ true
    → reads_as_boolean (item "combine_results" json) ≡ true
    → convert_booleans ("allow_resume" ∷ "sentiment" ∷ "combine_results" ∷ []) json
      ≡ some (with_booleans json)
unfolding convert_booleans
converted_items json a b c =
    convert_next "allow_resume" ("sentiment" ∷ "combine_results" ∷ []) json
      (item "allow_resume" json) refl a
    ∙ convert_next "sentiment" ("combine_results" ∷ []) (with_allow_resume json)
        (item "sentiment" json)
        (item-insert "allow_resume" "sentiment" (boolean (to_bool (item "allow_resume" json))) json)
        b
    ∙ convert_next "combine_results" [] (with_sentiment json) (item "combine_results" json)
        (item-insert "sentiment" "combine_results" (boolean (to_bool (item "sentiment" json)))
            (with_allow_resume json)
          ∙ item-insert "allow_resume" "combine_results"
              (boolean (to_bool (item "allow_resume" json))) json)
        c

item-with_booleans :
    (json : List (String × JsonValue)) (arg : String)
    → item arg (with_booleans json) ≡ (
        if "combine_results" == arg
        then boolean (to_bool (item "combine_results" json))
        else if "sentiment" == arg
        then boolean (to_bool (item "sentiment" json))
        else if "allow_resume" == arg
        then boolean (to_bool (item "allow_resume" json))
        else item arg json)
item-with_booleans json arg =
    rw
      (
        item-insert "combine_results" arg (boolean (to_bool (item "combine_results" json)))
            (with_sentiment json),
        item-insert "sentiment" arg (boolean (to_bool (item "sentiment" json)))
            (with_allow_resume json),
        item-insert "allow_resume" arg (boolean (to_bool (item "allow_resume" json))) json,
      )
      refl

-- What a Boolean argument says once it is accepted: a text is true if it is "True" or "true", and a
-- JSON Boolean is false, whichever it is.
abbrev pub says : JsonValue → Bool
says (text s) = s == "True" || s == "true"
says v = false

abbrev IsSaid : String → Type 0
IsSaid s = (lower s == codes "true" || lower s == codes "false") ≡ true

other_text :
    (x s : String)
    → (lower x == codes "true" || lower x == codes "false") ≡ false
    → IsSaid s
    → (x == s) ≡ false
other_text x s refused h = elim (Bool-cases (x == s)) [
  | inr apart ↦ apart
  | inl same ↦
      let e : x ≡ s = ground (arith, string_eq.beq_iff x s, same) in
      let h' = subst IsSaid (sym e) h in absurd (cc)
]

eq_swapped : (x s : String) → (x == s) ≡ (s == x)
eq_swapped x s = ground (arith, string_eq.beq_iff x s, string_eq.beq_iff s x)

-- Of the texts that `to_bool` knows, two are accepted as a Boolean.
to_bool-text : (s : String) → IsSaid s → to_bool (text s) ≡ (s == "True" || s == "true")
unfolding to_bool contains lower
to_bool-text s h =
    rw
      (
        other_text "t" s refl h,
        other_text "T" s refl h,
        other_text "y" s refl h,
        other_text "Y" s refl h,
        other_text "yes" s refl h,
        other_text "Yes" s refl h,
        eq_swapped "True" s,
        eq_swapped "true" s,
      )
      (ground arith)

to_bool-says : (v : JsonValue) → reads_as_boolean v ≡ true → to_bool v ≡ says v
unfolding to_bool
to_bool-says (text s) h = to_bool-text s h
to_bool-says (boolean b) h = refl
to_bool-says (integer n) h = refl
to_bool-says (texts t) h = refl
to_bool-says other h = refl

-- A submission that is accepted as the request `r`.
pub record IsSubmission (abspath : String → String) (json : List (String × JsonValue))
    (r : SpeechBatchRequest) : Type 0 where
  pub all_there : missing json_args json ≡ none
  pub nbest : is_int (item "nbest" json) ≡ true
  pub allow_resume : reads_as_boolean (item "allow_resume" json) ≡ true
  pub sentiment : reads_as_boolean (item "sentiment" json) ≡ true
  pub combine_results : reads_as_boolean (item "combine_results" json) ≡ true
  pub files : List String
  pub listed : item "files" json ≡ texts files
  pub request_is : r ≡ record {
    files = map abspath files;
    language = item "language" json;
    diarization = item "diarization" json;
    nbest = item "nbest" json;
    profanity = item "profanity" json;
    allow_resume = says (item "allow_resume" json);
    enable_sentiment = says (item "sentiment" json);
    combine_results = says (item "combine_results" json);
  }

-- What is accepted is read as `request_is` says.
IsSubmission-from_json :
    (abspath : String → String) (json : List (String × JsonValue)) (r : SpeechBatchRequest)
    → IsSubmission abspath json r
    → from_json abspath json ≡ request r
unfolding from_json
IsSubmission-from_json abspath json r h =
    let items = item-with_booleans json in
    let listed = h.listed in
    rw
      (
        from_json,
        h.all_there,
        from_present,
        h.nbest,
        from_converted,
        converted_items json h.allow_resume h.sentiment h.combine_results,
        from_files,
        items "files",
        listed,
        items "language",
        items "diarization",
        items "nbest",
        items "profanity",
        items "allow_resume",
        items "sentiment",
        items "combine_results",
        to_bool-says (item "allow_resume" json) h.allow_resume,
        to_bool-says (item "sentiment" json) h.sentiment,
        to_bool-says (item "combine_results" json) h.combine_results,
        h.request_is,
      )
      refl

abbrev request_of : SpeechBatchRequest → FromJson → SpeechBatchRequest
request_of r (request x) = x
request_of r (bad_request t) = r

abbrev is_request : FromJson → Bool
is_request (request r) = true
is_request (bad_request t) = false

convert_refused :
    (arg : String) (args : List String) (json : List (String × JsonValue))
    → reads_as_boolean (item arg json) ≡ false
    → convert_booleans (arg ∷ args) json ≡ none
unfolding convert_booleans
convert_refused arg args json refused = rw refused refl

convert_booleans-some :
    (arg : String) (args : List String) (json converted : List (String × JsonValue))
    → convert_booleans (arg ∷ args) json ≡ some converted
    → (reads_as_boolean (item arg json) ≡ true)
      × (convert_booleans args (insert arg (boolean (to_bool (item arg json))) json)
          ≡ some converted)
convert_booleans-some arg args json converted h =
    elim (Bool-cases (reads_as_boolean (item arg json))) [
      | inl reads ↦ (reads, sym (convert_next arg args json (item arg json) refl reads) ∙ h)
      | inr refused ↦ let nothing = convert_refused arg args json refused in absurd (cc)
    ]

-- The three tests of the loop.
converted-reads :
    (json converted : List (String × JsonValue))
    → convert_booleans ("allow_resume" ∷ "sentiment" ∷ "combine_results" ∷ []) json ≡ some converted
    → (reads_as_boolean (item "allow_resume" json) ≡ true)
      × (reads_as_boolean (item "sentiment" json) ≡ true)
      × (reads_as_boolean (item "combine_results" json) ≡ true)
converted-reads json converted h =
    let (a, h1) = convert_booleans-some "allow_resume" _ json converted h in
    let (b, h2) = convert_booleans-some "sentiment" _ (with_allow_resume json) converted h1 in
    let b_first =
      item-insert "allow_resume" "sentiment" (boolean (to_bool (item "allow_resume" json))) json in
    let h3 =
      ap
        (λ v.
          convert_booleans ("combine_results" ∷ [])
            (insert "sentiment" (boolean (to_bool v)) (with_allow_resume json)))
        (sym b_first)
      ∙ h2 in
    let (c, _) = convert_booleans-some "combine_results" _ (with_sentiment json) converted h3 in
    let c_first =
      item-insert "sentiment" "combine_results" (boolean (to_bool (item "sentiment" json)))
        (with_allow_resume json)
      ∙ item-insert "allow_resume" "combine_results" (boolean (to_bool (item "allow_resume" json)))
          json in
    (a, ap reads_as_boolean (sym b_first) ∙ b, ap reads_as_boolean (sym c_first) ∙ c)

module _ (abspath : String → String) (r : SpeechBatchRequest) where
  files_request :
      (json : List (String × JsonValue)) (v : JsonValue)
      → from_files abspath json v ≡ request r
      → (files : List String) × (v ≡ texts files)
  files_request json (texts files) h = (files, refl)
  files_request json (text t) h = absurd (cc (ap is_request h))
  files_request json (boolean b) h = absurd (cc (ap is_request h))
  files_request json (integer n) h = absurd (cc (ap is_request h))
  files_request json other h = absurd (cc (ap is_request h))

  converted_request :
      (o : Option (List (String × JsonValue)))
      → from_converted abspath o ≡ request r
      → (c : List (String × JsonValue)) × (o ≡ some c)
        × (from_files abspath c (item "files" c) ≡ request r)
  converted_request none h = absurd (cc (ap is_request h))
  converted_request (some c) h = (c, refl, h)

  tested_request :
      (b : Bool) (x : FromJson) (t : String)
      → (if b then x else bad_request t) ≡ request r
      → (b ≡ true) × (x ≡ request r)
  tested_request true x t h = (refl, h)
  tested_request false x t h = absurd (cc (ap is_request h))

  present_request :
      (o : Option String) (x : FromJson)
      → elim o [ some arg ↦ bad_request "Missing argument (string) in request body" | none ↦ x ]
        ≡ request r
      → (o ≡ none) × (x ≡ request r)
  present_request none x h = (refl, h)
  present_request (some arg) x h = absurd (cc (ap is_request h))

from_json-IsSubmission :
    (abspath : String → String) (json : List (String × JsonValue)) (r : SpeechBatchRequest)
    → from_json abspath json ≡ request r
    → IsSubmission abspath json r
unfolding from_json
from_json-IsSubmission abspath json r h =
    let (all_there, h1) =
      present_request abspath r (missing json_args json) (from_present abspath json) h in
    let (int, h2) = tested_request abspath r (is_int (item "nbest" json)) _ _ h1 in
    let (c, h3, h4) = converted_request abspath r _ h2 in
    let (allow_resume, sentiment, combine_results) = converted-reads json c h3 in
    let (files, listed) = files_request abspath r c (item "files" c) h4 in
    let same : some c ≡ some (with_booleans json) =
      sym h3 ∙ converted_items json allow_resume sentiment combine_results in
    let c_is : c ≡ with_booleans json = cc in
    let listed_there : item "files" json ≡ texts files =
      sym (item-with_booleans json "files") ∙ ap (item "files") (sym c_is) ∙ listed in
    let accepted : IsSubmission abspath json _ = record {
      all_there = all_there;
      nbest = int;
      allow_resume = allow_resume;
      sentiment = sentiment;
      combine_results = combine_results;
      files = files;
      listed = listed_there;
      request_is = refl;
    } in
    record {
      all_there = all_there;
      nbest = int;
      allow_resume = allow_resume;
      sentiment = sentiment;
      combine_results = combine_results;
      files = files;
      listed = listed_there;
      request_is = ap (request_of r) (sym h ∙ IsSubmission-from_json abspath json _ accepted);
    }

-- A submission is accepted as a request exactly if all arguments are there, "nbest" is an integer,
-- each Boolean argument is a JSON Boolean or a text that is "true" or "false" but for its case, and "files"
-- is a list of texts; and then the request has the absolute paths, and a Boolean argument is
-- true in it only for the texts "True" and "true": a JSON true becomes false.
pub from_json-accepted :
    (abspath : String → String) (json : List (String × JsonValue)) (r : SpeechBatchRequest)
    → (from_json abspath json ≡ request r) ↔ IsSubmission abspath json r
from_json-accepted abspath json r =
    (from_json-IsSubmission abspath json r, IsSubmission-from_json abspath json r)
