-- ===== src/Speech/CommandLine.antt =====
-- batchkit_examples/speech_sdk/parser.py: the command line of the speech client. argparse and
-- `tempfile.mkdtemp` are parameters.
use batch_processing_kit.Prelude.{
  ℕ, zero, suc, ◌≡◌, refl, ◌⊎◌, inl, inr, Bool, true, false, not, ◌&&◌, List, [], ◌∷◌, Option, none,
  some, String, if◌then◌else◌, ◌==◌, string_eq, Bool-cases, All, subst,
}
use batch_processing_kit.Prelude.Dict.{contains}
use batch_processing_kit.Prelude.Int.{ℤ, pos, negsuc}

-- `check_positive` of the integer that a text reads as; `none` is the ArgumentTypeError.
unfoldable pub check_positive : ℤ → Option ℕ
check_positive (pos zero) = none
check_positive (pos (suc n)) = some (suc n)
check_positive (negsuc n) = none

pub data ValueKind : Type 0 where
  text positive store_true : ValueKind

pub data Default : Type 0 where
  no_default default_false : Default
  default_text : String → Default
  default_number : ℕ → Default

-- The arguments of `add_argument`, less the text of the help.
pub record Argument : Type 0 where
  pub short : String
  pub long : String
  pub kind : ValueKind
  pub default : Default
  pub choices : List String

abbrev option : String → String → ValueKind → Default → List String → Argument
option short long kind default choices = record {
  short = short;
  long = long;
  kind = kind;
  default = default;
  choices = choices;
}

unfoldable pub create_parser : List Argument
create_parser =
    option "-config" "--configuration-file" text (default_text "/usr/local/batch/input/config.yaml")
      []
    ∷ option "-output_folder" "--output-folder" text (default_text "/usr/local/batch/output") []
    ∷ option "-input_folder" "--input-folder" text (default_text "/usr/local/batch/input") []
    ∷ option "-log_folder" "--log-folder" text no_default []
    ∷ option "-console_log_level" "--console-log-level" text (default_text "INFO")
        ("DEBUG" ∷ "INFO" ∷ "WARNING" ∷ "ERROR" ∷ "CRITICAL" ∷ [])
    ∷ option "-file_log_level" "--file-log-level" text (default_text "INFO")
        ("DEBUG" ∷ "INFO" ∷ "WARNING" ∷ "ERROR" ∷ "CRITICAL" ∷ [])
    ∷ option "-nbest" "--nbest" positive (default_number 1) []
    ∷ option "-combined_json" "--store-combined-json" store_true default_false []
    ∷ option "-input_list" "--input-list" text no_default []
    ∷ option "-m" "--run-mode" text (default_text "ONESHOT")
        ("ONESHOT" ∷ "DAEMON" ∷ "APISERVER" ∷ [])
    ∷ option "-scratch_folder" "--scratch-folder" text no_default []
    ∷ option "-diarization" "--diarization-mode" text (default_text "None")
        ("None" ∷ "Identity" ∷ "Anonymous" ∷ [])
    ∷ option "-language" "--language" text (default_text "en-US") []
    ∷ option "-strict_config" "--strict-configuration-validation" store_true default_false []
    ∷ option "-profanity" "--profanity-mode" text (default_text "Masked")
        ("Masked" ∷ "Raw" ∷ "Removed" ∷ [])
    ∷ option "-sentiment" "--enable-sentiment" store_true default_false []
    ∷ option "-resume" "--allow-resume" store_true default_false []
    ∷ option "-port" "--apiserver_port" positive (default_number 5000) []
    ∷ option "-poll" "--poll" store_true default_false []
    ∷ option "-debug_loop_interval" "--debug-loop-interval" positive (default_number 0) []
    ∷ []

-- What the parser gives.
pub record Namespace : Type 0 where
  pub configuration_file : String
  pub output_folder : String
  pub input_folder : String
  pub log_folder : Option String
  pub console_log_level : String
  pub file_log_level : String
  pub nbest : ℕ
  pub store_combined_json : Bool
  pub input_list : Option String
  pub run_mode : String
  pub scratch_folder : Option String
  pub diarization_mode : String
  pub language : String
  pub strict_configuration_validation : Bool
  pub profanity_mode : String
  pub enable_sentiment : Bool
  pub allow_resume : Bool
  pub apiserver_port : ℕ
  pub poll : Bool
  pub debug_loop_interval : ℕ

-- `none` is the error of a command line that argparse refuses, which ends the process.
pub record Argparse : Type 0 where
  pub parse_args : List Argument → List String → Option Namespace
  pub mkdtemp : String

abbrev or_temporary : String → Option String → Option String
or_temporary made none = some made
or_temporary made (some folder) = some folder

abbrev is_given : Option String → Bool
is_given none = false
is_given (some x) = true

abbrev checked : String → Namespace → Option Namespace
checked made a =
    if is_given a.input_list && not (a.run_mode == "ONESHOT")
    then none
    else some (record a { scratch_folder = or_temporary made a.scratch_folder })

abbrev of_parsed : String → Option Namespace → Option Namespace
of_parsed made none = none
of_parsed made (some a) = checked made a

unfoldable pub parse_cmdline : Argparse → List String → Option Namespace
parse_cmdline p args = of_parsed p.mkdtemp (p.parse_args create_parser args)

-- A default is none, or a flag or number, or one of the choices if there are any.
abbrev IsAllowed : Default → List String → Type 0
IsAllowed (default_text t) [] = Unit
IsAllowed (default_text t) (c ∷ cs) = contains t (c ∷ cs) ≡ true
IsAllowed d cs = Unit

-- Every option of the command line that has choices has one of them as its default.
pub create_parser-IsAllowed : All (λ a. IsAllowed a.default a.choices) create_parser
unfolding create_parser contains
create_parser-IsAllowed = (
  tt,
  (
    tt,
    (
      tt,
      (
        tt,
        (
          refl,
          (
            refl,
            (
              tt,
              (
                tt,
                (tt, (refl, (tt, (refl, (tt, (tt, (refl, (tt, (tt, (tt, (tt, (tt, tt)))))))))))),
              ),
            ),
          ),
        ),
      ),
    ),
  ),
)

abbrev IsAccepted : Namespace → Type 0
IsAccepted a =
    ((f : String) × (a.scratch_folder ≡ some f))
    × ((a.input_list ≡ none) ⊎ (a.run_mode ≡ "ONESHOT"))

-- What `parse_cmdline` accepts has a scratch folder, and names a list of input files only in the mode
-- ONESHOT.
pub parse_cmdline-accepted :
    (p : Argparse) (args : List String) (a : Namespace)
    → parse_cmdline p args ≡ some a
    → ((f : String) × (a.scratch_folder ≡ some f))
      × ((a.input_list ≡ none) ⊎ (a.run_mode ≡ "ONESHOT"))
unfolding parse_cmdline
parse_cmdline-accepted p args a h = accepted (p.parse_args create_parser args) h
  where
    folder : (o : Option String) → (f : String) × (or_temporary p.mkdtemp o ≡ some f)
    folder none = (p.mkdtemp, refl)
    folder (some f) = (f, refl)

    mode :
        (o : Option String) (t : String) (x : Option Namespace) (y : Namespace)
        → (if is_given o && not (t == "ONESHOT") then none else x) ≡ some y
        → ((o ≡ none) ⊎ (t ≡ "ONESHOT")) × (x ≡ some y)
    mode none t x y e = (inl refl, e)
    mode (some f) t x y e = elim (Bool-cases (t == "ONESHOT")) [
      | inl once ↦ (inr ((string_eq.beq_iff t "ONESHOT").0 once), rw once at e)
      | inr other ↦ absurd (cc (rw other at e))
    ]

    accepted : (o : Option Namespace) → of_parsed p.mkdtemp o ≡ some a → IsAccepted a
    accepted none e = absurd (cc)
    accepted (some b) e =
        let made : Namespace = record b {
          scratch_folder = or_temporary p.mkdtemp b.scratch_folder;
        } in
        let (once, same) = mode b.input_list b.run_mode (some made) a e in
        let is_a : made ≡ a = cc same in subst IsAccepted is_a (folder b.scratch_folder, once)
