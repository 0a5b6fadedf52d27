-- ===== src/Examples/Masters.antt =====
-- A round of the master thread for a batch of two files that asks for combined results.
use batch_processing_kit.Prelude.{
  refl, Bool, true, false, List, [], ◌∷◌, ◌++◌, Option, some, none, String, ◌==◌, string_eq, nat_eq,
  ℕ,
}
use batch_processing_kit.Prelude.Dict.{lookup, insert, contains}
use batch_processing_kit.BatchStatus.{change_status_enum, status_enum, assert_batch_exists, by_name}
use batch_processing_kit.BatchStatus.Master.{announce, conclude}
use batch_processing_kit.Orchestrator.Hotswap.{hotswap_endpoint_managers}
use batch_processing_kit.Orchestrator.Batches.{
  start_batch, start_requested, reset_results, enqueue_all, enqueue,
}
use batch_processing_kit.Orchestrator.{push_work}
use batch_processing_kit.Orchestrator.Summaries.{write_summary_information, snapshot}
use batch_processing_kit.Files.Disk.{write_single_output_json, collect_results, write_text}
use batch_processing_kit.Files.{get_input_output_file_names}
use batch_processing_kit.Prelude.Text.{◌<>◌}
use batch_processing_kit.BatchStatus.{BatchDir, is_deleted, waiting, done}
use batch_processing_kit.BatchStatus.Lifecycle.{HasStatus}
use batch_processing_kit.Files.Disk.{passes, refuses}
use batch_processing_kit.Orchestrator.{Orchestrator, BatchRequest}
use batch_processing_kit.Orchestrator.Hotswap.{invalid_configuration}
use batch_processing_kit.System.{created}
use batch_processing_kit.Master.{
  Setting, World, checking, Turn, works, masters, run_turns, take_turn, round_step,
  combined_results_path,
}
use batch_processing_kit.Master.Finished.{Collected, run_turns-combined}
use batch_processing_kit.Master.Valid.{HasResults}
use batch_processing_kit.Examples.{batch}

abbrev in_batch : Bool → Option (ℕ × String)
in_batch true = some (7, "results.json")
in_batch false = none

abbrev setting : Setting
setting = record {
  os_path = record {
    basename = λ f. f;
    splitext = λ f. (f, "");
    join = λ d f. d <> ("/" <> f);
    abspath = λ f. f;
  };
  json = record { first_result = λ text. some text; dumps = λ rs. "[]" };
  summarizer_of = λ t. none;
  singleton_summary = none;
  batch_base_path = λ b. "batch_7";
  run_summary_path = λ b. "batch_7/run_summary.json";
  temporary = "tmp";
  file_of = λ path. in_batch (path == "batch_7/results.json");
}

abbrev request : BatchRequest
request = record batch { combine_results = true }

abbrev waiting_dir : BatchDir
waiting_dir = record { status_file = some "waiting"; files = [] }

abbrev world : World
world = record {
  orchestrator = created false;
  scratch = (7, waiting_dir) ∷ [];
  disk = record {
    files = ("batch_7/a.wav_.json", "text") ∷ [];
    same_device = λ a b. true;
    faults = passes ∷ refuses ∷ [];
  };
  summarizer = none;
}

on_file : HasStatus 7 waiting world.scratch
unfolding lookup
on_file = (waiting_dir, refl, refl)

-- While the master waits, a worker completes the batch.
abbrev completed : Orchestrator
completed = record (created false) { batch_completion = true }

abbrev step : Turn
step = masters invalid_configuration (λ f. true)

abbrev schedule : List Turn
schedule =
    step
    ∷ step
    ∷ step
    ∷ step
    ∷ step
    ∷ works completed
    ∷ step
    ∷ step
    ∷ step
    ∷ step
    ∷ step
    ∷ step
    ∷ []

ended : HasStatus 7 done (run_turns setting request schedule (checking, world)).1.scratch
unfolding run_turns take_turn round_step created is_deleted lookup change_status_enum status_enum
    assert_batch_exists by_name announce conclude hotswap_endpoint_managers start_batch
    start_requested reset_results enqueue_all enqueue insert contains push_work
    write_summary_information snapshot write_single_output_json collect_results
    get_input_output_file_names write_text
ended = (record { status_file = some "done"; files = [] }, refl, refl)

run_turns-combined_example :
    HasResults
      (Collected setting request schedule (checking, world))
      (combined_results_path setting 7)
      (run_turns setting request schedule (checking, world)).1
run_turns-combined_example =
    run_turns-combined setting request "results.json" schedule waiting world refl refl on_file refl
      (tt, (tt, (tt, (tt, (tt, (tt, (tt, (tt, (tt, (tt, (tt, (tt, tt)))))))))))) ended

-- One more step, at the end.
abbrev long_schedule : List Turn
long_schedule = schedule ++ step ∷ []
