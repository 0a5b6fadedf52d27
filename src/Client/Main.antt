-- ===== src/Client/Main.antt =====
-- batchkit/client.py: `run`, the entry point of the process, and what a client is made of; with
-- batchkit/utils.py: create_dir, assert_file_exists and assert_sufficient_openfd_rlimit.
use batch_processing_kit.Prelude.{
  ℕ, Bool, true, false, not, ◌&&◌, ◌||◌, List, [], ◌∷◌, ◌++◌, Option, none, some, String,
  if◌then◌else◌, ltb, ◌==◌, string_eq,
}
use batch_processing_kit.Config.{Validator, ConfigFile, Loaded, loaded, load_configuration}
use batch_processing_kit.Files.{OsPath}
use batch_processing_kit.Files.Disk.{
  Disk, Io, does, os_error as disk_error, ResultsJson, write_single_output_json,
}
use batch_processing_kit.Client.{ClientType, one_shot, daemon, generic, create}

-- The command line, as far as the framework reads it.
pub record CmdArgs : Type 0 where
  pub run_mode : String
  pub input_folder : String
  pub input_list : Option String
  pub output_folder : String
  pub poll : Bool
  pub apiserver_port : ℕ
  pub debug_loop_interval : ℕ
  pub scratch_folder : String
  pub log_folder : Option String
  pub configuration_file : String
  pub strict_configuration_validation : Bool
  pub store_combined_json : Bool

pub record Settings : Type 0 where
  pub input_folder : String
  pub input_list : Option String
  pub output_folder : String
  pub poll_input : Bool
  pub apiserver_port : ℕ
  pub debug_loop_interval : ℕ
  pub scratch_folder : String
  pub log_folder : Option String
  pub store_combined_json : Bool
  pub config_file : String
  pub strict_configuration_validation : Bool

unfoldable pub settings_of : CmdArgs → Settings
settings_of a = record {
  input_folder = a.input_folder;
  input_list = a.input_list;
  output_folder = a.output_folder;
  poll_input = a.poll;
  apiserver_port = a.apiserver_port;
  debug_loop_interval = a.debug_loop_interval;
  scratch_folder = a.scratch_folder;
  log_folder = a.log_folder;
  store_combined_json = a.store_combined_json;
  config_file = a.configuration_file;
  strict_configuration_validation = a.strict_configuration_validation;
}

-- What the process asks of the system: its limits of open files, and whether a path is a directory or
-- a file, can be made a directory, and can have its permissions set.
pub record Machine : Type 0 where
  pub soft : ℕ
  pub hard : ℕ
  pub is_dir : String → Bool
  pub finds_file : String → Bool
  pub makes_dir : String → Bool
  pub sets_mode : String → Bool

-- False is the AssertionError.
unfoldable pub assert_sufficient_openfd_rlimit : Machine → ℕ → Bool
assert_sufficient_openfd_rlimit m num_openfd_floor =
    not (ltb m.soft num_openfd_floor || ltb m.hard num_openfd_floor)

-- False is the OSError, which is logged and raised.
unfoldable pub create_dir : Machine → String → Bool
create_dir m path = if m.is_dir path then m.sets_mode path else m.makes_dir path

-- False is the end of the process.
unfoldable pub assert_file_exists : Machine → String → Bool
assert_file_exists m path = m.finds_file path

pub data MainError : Type 0 where
  assertion_error os_error system_exit invalid_configuration keyboard_interrupt : MainError

-- `run` returns a result once the log queue has its end and the children are killed, or is left by an
-- exception without that.
pub data MainEnd : Type 0 where
  ended : Bool → MainEnd
  left_by : MainError → MainEnd

-- `batch_type`: a subtype of BatchConfig, one of BatchRequest, or neither.
pub data BatchTypeArg : Type 0 where
  a_batch_config a_batch_request neither : BatchTypeArg

abbrev pub is_batch_type : BatchTypeArg → Bool
is_batch_type neither = false
is_batch_type _ = true

-- `if settings.input_list`: an empty text counts as none.
abbrev pub list_exists : Machine → Option String → Bool
list_exists m none = true
list_exists m (some path) = if path == "" then true else assert_file_exists m path

abbrev is_client : Option ClientType → Bool
is_client none = false
is_client (some t) = true

-- The first check that fails ends the run.
unfoldable pub first_error : List (Bool × MainError) → Option MainError
first_error [] = none
first_error ((holds, e) ∷ checks) = if holds then first_error checks else some e

-- The checks, in the order in which `run` makes them.
abbrev pub prerequisites : Machine → BatchTypeArg → String → Settings → List (Bool × MainError)
prerequisites m batch_type run_mode s =
    (assert_sufficient_openfd_rlimit m 524288, assertion_error)
    ∷ (is_batch_type batch_type, assertion_error)
    ∷ (run_mode == "APISERVER" || create_dir m s.output_folder, os_error)
    ∷ (create_dir m s.scratch_folder, os_error)
    ∷ (assert_file_exists m s.config_file, system_exit)
    ∷ (list_exists m s.input_list, system_exit)
    ∷ (is_client (create run_mode), invalid_configuration)
    ∷ []

-- How `client.run()` ends: with its result, with an exception, or with the KeyboardInterrupt that the
-- handler of SIGINT raises, which is no `Exception`.
pub data ClientRun : Type 0 where
  runs : Bool → ClientRun
  fails : ClientRun
  interrupted : ClientRun

abbrev pub finished_with : ClientRun → MainEnd
finished_with (runs ret) = ended ret
finished_with fails = ended false
finished_with interrupted = left_by keyboard_interrupt

abbrev pub run_client : (ClientType → ClientRun) → Option ClientType → MainEnd
run_client client none = left_by invalid_configuration
run_client client (some t) = finished_with (client t)

abbrev pub is_loaded : (v : Validator) → Loaded v → Bool
is_loaded v (loaded c) = true
is_loaded v _ = false

abbrev pub outcome : Option MainError → MainEnd → MainEnd
outcome none e = e
outcome (some x) e = left_by x

-- The body of the `try`, with the early check of the configuration.
abbrev pub try_client :
    (v : Validator) → ConfigFile v → (ClientType → ClientRun) → String → Settings → MainEnd
try_client v file client run_mode s =
    if s.strict_configuration_validation && not (is_loaded v (load_configuration v file true))
    then ended false
    else run_client client (create run_mode)

unfoldable pub run_main :
    (v : Validator)
    → ConfigFile v
    → Machine
    → BatchTypeArg
    → CmdArgs
    → (ClientType → ClientRun)
    → MainEnd
run_main v file m batch_type a client =
    outcome (first_error (prerequisites m batch_type a.run_mode (settings_of a)))
      (try_client v file client a.run_mode (settings_of a))

-- `_singleton_run_summary_path`
unfoldable pub singleton_run_summary_path : OsPath → ClientType → Settings → Option String
singleton_run_summary_path p generic s = none
singleton_run_summary_path p one_shot s =
    some (p.abspath (p.join s.output_folder "run_summary.json"))
singleton_run_summary_path p daemon s = some (p.abspath (p.join s.output_folder "run_summary.json"))

-- `self.status_provider.batch_dirs() + [self.settings.output_folder]`
unfoldable pub cache_search_dirs : List String → Settings → List String
cache_search_dirs batch_dirs s = batch_dirs ++ s.output_folder ∷ []

-- The end of `DaemonClient.run`, once its loop is over, with what `request_stop` and `join` do left to
-- the orchestrator. `none` is an error of the JSON or of the disk.
abbrev with_result : Bool → Option Io → Option (Bool × Disk)
with_result is_success none = none
with_result is_success (some (does d)) = some (is_success, d)
with_result is_success (some (disk_error d)) = none

unfoldable pub finish_daemon :
    OsPath → ResultsJson → Settings → List String → Bool → Disk → Option (Bool × Disk)
finish_daemon p j s submitted is_success d =
    if s.store_combined_json
    then with_result is_success (write_single_output_json p j submitted s.output_folder d)
    else some (is_success, d)
