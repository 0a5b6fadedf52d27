-- ===== src/Examples/Clients.antt =====
-- A daemon that notices two files, a batch that is waited for, a result that is written on a disk that
-- fails once, and a server.
use batch_processing_kit.Prelude.{
  ◌≡◌, refl, true, false, List, [], ◌∷◌, none, some, String, if◌then◌else◌, ltb, string_eq, nat_eq,
  inl, inr, Bool-cases, ℕ, ◌⊎◌,
}
use batch_processing_kit.Prelude.Int.{pos}
use batch_processing_kit.Prelude.Text.{◌<>◌}
use batch_processing_kit.Prelude.Dict.{count, contains, lookup, insert}
use batch_processing_kit.Files.{OsPath}
use batch_processing_kit.Files.Disk.{Disk, breaks_off, write_json_file_atomic}
use batch_processing_kit.Files.Atomic.{IsAtomic, write_json_file_atomic-IsAtomic}
use batch_processing_kit.BatchStatus.{waiting, running, done, by_name}
use batch_processing_kit.Client.Sync.{Seen, IsFinished, is_stray, do_batch_sync, do_batch_sync_ends}
use batch_processing_kit.Client.Daemon.{concat, run_rounds, started, run_rounds-once}
use batch_processing_kit.ApiServer.{
  Server, Request, submit_controller, status_controller, delete_controller, watch_controller, fails,
  bad_request, parsed, answers, batch_status,
}
use batch_processing_kit.BatchStatus.Lifecycle.{HasStatus}
use batch_processing_kit.ApiServer.Answers.{
  submit_controller-waiting, controllers_refuse, submitted_to, status_answer,
}
use batch_processing_kit.Examples.{batch}
use batch_processing_kit.Config.{
  Validator, ConfigFile, dict, loaded, load_configuration, normalize_validate_config, validate_all,
}
use batch_processing_kit.Client.{ClientType, create}
use batch_processing_kit.Client.Main.{
  CmdArgs, Machine, a_batch_config, runs, settings_of, run_main, first_error,
  assert_sufficient_openfd_rlimit, create_dir, assert_file_exists,
}
use batch_processing_kit.Client.Started.{Prepared, run_main-success}

abbrev noticed : List (List String × List String)
noticed =
    ("a.wav" ∷ "b.wav" ∷ "a.wav" ∷ [], "b.wav" ∷ []) ∷ ("b.wav" ∷ [], "a.wav" ∷ "c.wav" ∷ []) ∷ []

run_rounds-once_example :
    count ⦃e = string_eq⦄ "a.wav" (concat (run_rounds true noticed started).batches) ≡ 1
unfolding contains
run_rounds-once_example = run_rounds-once true noticed "a.wav"

abbrev failing_once : Disk
failing_once = record {
  files = ("out.json", "{}") ∷ ("other.json", "[]") ∷ [];
  same_device = λ a b. false;
  faults = breaks_off "{" ∷ [];
}

write_json_file_atomic-IsAtomic_example :
    IsAtomic failing_once "out.jsonx" "out.json" "{\"a\": 1}" "other.json"
      (write_json_file_atomic 3 "out.jsonx" "out.json" "{\"a\": 1}" failing_once)
write_json_file_atomic-IsAtomic_example =
    write_json_file_atomic-IsAtomic 3 "out.jsonx" "out.json" "{\"a\": 1}" "other.json" failing_once
      refl refl refl

abbrev flat_paths : OsPath
flat_paths = record {
  basename = λ f. f;
  splitext = λ f. (f, ".json");
  join = λ d f. d <> ("/" <> f);
  abspath = λ f. f;
}

-- Done at the third watch.
abbrev seen : ℕ → Seen
seen n = record {
  status = if ltb n 2 then running else done;
  is_alive = true;
  listing = "a_wav.json" ∷ [];
}

abbrev results_disk : Disk
results_disk = record {
  files = ("batch_7/a_wav.json", "{}") ∷ [];
  same_device = λ a b. true;
  faults = [];
}

calm : (j : ℕ) → is_stray flat_paths (seen j) ≡ false
calm j = elim (Bool-cases (ltb j 2)) [ inl e ↦ rw e refl | inr e ↦ rw e refl ]

do_batch_sync_ends_example :
    IsFinished flat_paths "batch_7" "out"
      (do_batch_sync flat_paths "batch_7" "out" seen 0 3 waiting results_disk)
do_batch_sync_ends_example =
    do_batch_sync_ends flat_paths "batch_7" "out" seen 2 results_disk (λ j. refl) calm refl

abbrev empty_server : Server
empty_server = record {
  scratch = [];
  submission_queue = [];
  watches = record { callbacks = []; watched = []; toggled = [] };
  cancelled = [];
}

abbrev about_seven : Request
about_seven = record {
  args = ("batch_id", "7") ∷ ("target_state", "finished") ∷ [];
  int = λ t. some (pos 7);
  float = λ t. none;
}

-- The master takes the batch before its submission is answered.
abbrev takes_it : Server → Server
takes_it s = record s {
  scratch = insert 7 (record { status_file = some "running"; files = [] }) s.scratch;
  submission_queue = [];
}

submit_controller-waiting_example :
    HasStatus 7 waiting (submitted_to batch empty_server).scratch
    × ((submitted_to batch empty_server).submission_queue ≡ batch ∷ [])
    × (submit_controller takes_it (parsed batch) empty_server
        ≡ answers
            (batch_status (status_answer running 7))
            (takes_it (submitted_to batch empty_server)))
    × (status_controller about_seven (takes_it (submitted_to batch empty_server))
        ≡ answers
            (batch_status (status_answer running 7))
            (takes_it (submitted_to batch empty_server)))
    × (submit_controller (λ now. now) (parsed batch) empty_server
        ≡ answers (batch_status (status_answer waiting 7)) (submitted_to batch empty_server))
unfolding lookup insert
submit_controller-waiting_example =
    submit_controller-waiting takes_it batch about_seven "7" running empty_server refl refl refl
      (record { status_file = some "running"; files = [] }, refl, refl)

abbrev about_nothing : Request
about_nothing = record { args = []; int = λ t. none; float = λ t. none }

controllers_refuse_example :
    (status_controller about_nothing empty_server ≡ fails bad_request empty_server)
    × (delete_controller (λ f. true) about_nothing empty_server ≡ fails bad_request empty_server)
    × (watch_controller 1 (λ t s. s) about_seven empty_server ≡ answers none empty_server)
unfolding lookup by_name
controllers_refuse_example =
    controllers_refuse (λ f. true) 1 (λ t s. s) about_nothing about_seven "7" (pos 7) empty_server
      bad_request (inl (refl, refl)) refl refl (inr ("finished", refl, refl))

abbrev accepting : Validator
accepting = record { Doc = String; empty = ""; normalized = λ d. d; validated = λ d. some d }

abbrev machine : Machine
machine = record {
  soft = 600000;
  hard = 600000;
  is_dir = λ path. false;
  finds_file = λ path. true;
  makes_dir = λ path. true;
  sets_mode = λ path. false;
}

abbrev cmd_args : CmdArgs
cmd_args = record {
  run_mode = "DAEMON";
  input_folder = "in";
  input_list = none;
  output_folder = "out";
  poll = true;
  apiserver_port = 5000;
  debug_loop_interval = 0;
  scratch_folder = "scratch";
  log_folder = none;
  configuration_file = "config.yaml";
  strict_configuration_validation = true;
  store_combined_json = false;
}

abbrev configured : ConfigFile accepting
configured = dict (("alpha", "host: a") ∷ [])

run_main-success_example :
    Prepared machine a_batch_config cmd_args
    × ((t : ClientType) × (create "DAEMON" ≡ some t) × (runs true ≡ runs true))
    × ((true ≡ false)
        ⊎ ((c : List (String × String)) × (load_configuration accepting configured true
              ≡ loaded c)))
unfolding run_main settings_of first_error assert_sufficient_openfd_rlimit create_dir
    assert_file_exists create load_configuration normalize_validate_config validate_all
run_main-success_example =
    run_main-success accepting configured machine a_batch_config cmd_args (λ t. runs true) refl
