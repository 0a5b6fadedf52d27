-- ===== src/Client/Started.antt =====
-- batchkit/client.py: what the result of `run` says of the run.
use batch_processing_kit.Prelude.{
  ◌≡◌, refl, ◌⊎◌, inl, inr, ℕ, ◌≤◌, ◌||◌, ◌==◌, string_eq, arith, Bool-cases, Bool, true, false,
  not, ◌&&◌, List, [], ◌∷◌, Option, none, some, String, if◌then◌else◌, All, ap,
}
use batch_processing_kit.Config.{
  Validator, ConfigFile, Loaded, loaded, invalid_configuration, attribute_error, load_configuration,
}
use batch_processing_kit.Client.{ClientType, create}
use batch_processing_kit.Client.Main.{
  CmdArgs, settings_of, is_batch_type, list_exists, a_batch_config, a_batch_request, neither,
  assert_sufficient_openfd_rlimit, create_dir, assert_file_exists, Machine, MainError, MainEnd,
  ended, left_by, BatchTypeArg, first_error, prerequisites, ClientRun, runs, fails, interrupted,
  finished_with, run_client, is_loaded, outcome, try_client, run_main,
}

abbrev Holds : Bool × MainError → Type 0
Holds c = c.0 ≡ true

first_error-Holds : (cs : List (Bool × MainError)) → first_error cs ≡ none → All Holds cs
unfolding first_error
first_error-Holds [] h = tt
first_error-Holds ((true, e) ∷ cs) h = (refl, first_error-Holds cs h)
first_error-Holds ((false, e) ∷ cs) h = absurd (cc)

abbrev is_success : MainEnd → Bool
is_success (ended ret) = ret
is_success (left_by e) = false

outcome_none :
    (o : Option MainError) (e : MainEnd) → outcome o e ≡ ended true → (o ≡ none) × (e ≡ ended true)
outcome_none none e h = (refl, h)
outcome_none (some x) e h = absurd (cc)

run_client-ended :
    (client : ClientType → ClientRun) (o : Option ClientType)
    → run_client client o ≡ ended true
    → (t : ClientType) × (o ≡ some t) × (client t ≡ runs true)
run_client-ended client none h = absurd (cc)
run_client-ended client (some t) h = (t, refl, ran (client t) h)
  where
    ran : (r : ClientRun) → finished_with r ≡ ended true → r ≡ runs true
    ran (runs true) e = refl
    ran (runs false) e = absurd (cc (ap is_success e))
    ran fails e = absurd (cc (ap is_success e))
    ran interrupted e = absurd (cc (ap is_success e))

strict_loaded :
    (v : Validator) (strict : Bool) (l : Loaded v) (e : MainEnd)
    → (if strict && not (is_loaded v l) then ended false else e) ≡ ended true
    → ((strict ≡ false) ⊎ ((c : List (String × v.Doc)) × (l ≡ loaded c))) × (e ≡ ended true)
strict_loaded v false l e h = (inl refl, h)
strict_loaded v true (loaded c) e h = (inr (c, refl), h)
strict_loaded v true invalid_configuration e h = absurd (cc (ap is_success h))
strict_loaded v true attribute_error e h = absurd (cc (ap is_success h))

-- The directory is there and its permissions can be set, or it can be made.
abbrev pub Created : Machine → String → Type 0
Created m path =
    ((m.is_dir path ≡ true) × (m.sets_mode path ≡ true))
    ⊎ ((m.is_dir path ≡ false) × (m.makes_dir path ≡ true))

-- No input list is given, or its name is empty, or its file is there.
abbrev pub Listed : Machine → Option String → Type 0
Listed m none = Unit
Listed m (some path) = ((path == "") ≡ true) ⊎ (m.finds_file path ≡ true)

abbrev pub IsBatchType : BatchTypeArg → Type 0
IsBatchType t = (t ≡ a_batch_config) ⊎ (t ≡ a_batch_request)

pub record Prepared (m : Machine) (t : BatchTypeArg) (a : CmdArgs) : Type 0 where
  pub soft : 524288 ≤ m.soft
  pub hard : 524288 ≤ m.hard
  pub batch_type : IsBatchType t
  pub output : (a.run_mode ≡ "APISERVER") ⊎ Created m a.output_folder
  pub scratch : Created m a.scratch_folder
  pub config : m.finds_file a.configuration_file ≡ true
  pub listed : Listed m a.input_list

enough_files :
    (m : Machine) (n : ℕ) → assert_sufficient_openfd_rlimit m n ≡ true → (n ≤ m.soft) × (n ≤ m.hard)
unfolding assert_sufficient_openfd_rlimit
enough_files m n h = (ground arith, ground arith)

create_dir-Created : (m : Machine) (path : String) → create_dir m path ≡ true → Created m path
unfolding create_dir
create_dir-Created m path h = elim (Bool-cases (m.is_dir path)) [
  | inl there ↦ inl (there, ground (arith, h, there))
  | inr new ↦ inr (new, ground (arith, h, new))
]

output-Created :
    (m : Machine) (run_mode path : String)
    → (run_mode == "APISERVER" || create_dir m path) ≡ true
    → (run_mode ≡ "APISERVER") ⊎ Created m path
output-Created m run_mode path h = elim (Bool-cases (run_mode == "APISERVER")) [
  | inl server ↦ inl (ground (arith, string_eq.beq_iff run_mode "APISERVER"))
  | inr other ↦ inr (create_dir-Created m path (ground arith))
]

is_batch_type-IsBatchType : (t : BatchTypeArg) → is_batch_type t ≡ true → IsBatchType t
is_batch_type-IsBatchType a_batch_config h = inl refl
is_batch_type-IsBatchType a_batch_request h = inr refl
is_batch_type-IsBatchType neither h = absurd (cc)

list_exists-Listed : (m : Machine) (o : Option String) → list_exists m o ≡ true → Listed m o
unfolding assert_file_exists
list_exists-Listed m none h = tt
list_exists-Listed m (some path) h = elim (Bool-cases (path == "")) [
  | inl empty ↦ inl empty
  | inr named ↦ inr (ground arith)
]

prerequisites-Prepared :
    (m : Machine) (t : BatchTypeArg) (a : CmdArgs)
    → All (λ c. c.0 ≡ true) (prerequisites m t a.run_mode (settings_of a))
    → Prepared m t a
unfolding settings_of assert_file_exists
prerequisites-Prepared m t a (limit, (typed, (output, (scratch, (config, (listed, rest)))))) =
    let (soft, hard) = enough_files m 524288 limit in
    record {
      soft = soft;
      hard = hard;
      batch_type = is_batch_type-IsBatchType t typed;
      output = output-Created m a.run_mode a.output_folder output;
      scratch = create_dir-Created m a.scratch_folder scratch;
      config = config;
      listed = list_exists-Listed m a.input_list listed;
    }

-- If `run` returns true, then: the soft and the hard limit of open files are at least 524288; the batch
-- type is one of the two kinds; the output folder, but of an API server, and the scratch folder were
-- made or are there with permissions that can be set; the file of the configuration is there, and
-- that of the input list, if one is named; the mode names a client, whose own run returned true;
-- and if the validation is strict, the configuration loads strictly.
pub run_main-success :
    (v : Validator) (file : ConfigFile v) (m : Machine) (batch_type : BatchTypeArg) (a : CmdArgs)
    (client : ClientType → ClientRun)
    → run_main v file m batch_type a client ≡ ended true
    → Prepared m batch_type a
      × ((t : ClientType) × (create a.run_mode ≡ some t) × (client t ≡ runs true))
      × ((a.strict_configuration_validation ≡ false)
          ⊎ ((c : List (String × v.Doc)) × (load_configuration v file true ≡ loaded c)))
unfolding run_main settings_of
run_main-success v file m batch_type a client h =
    let s = settings_of a in
    let (holds, tried) =
      outcome_none (first_error (prerequisites m batch_type a.run_mode s))
        (try_client v file client a.run_mode s) h in
    let (strict, ran) =
      strict_loaded v a.strict_configuration_validation (load_configuration v file true)
        (run_client client (create a.run_mode)) tried in
    (
      prerequisites-Prepared m batch_type a
          (first_error-Holds (prerequisites m batch_type a.run_mode s) holds),
      run_client-ended client (create a.run_mode) ran,
      strict,
    )
