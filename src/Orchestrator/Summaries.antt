-- ===== src/Orchestrator/Summaries.antt =====
-- batchkit/orchestrator.py: the run summary, and batchkit/batch_status.py: set_run_summary and
-- run_summary. A summary is the text of its JSON.
use batch_processing_kit.Prelude.{
  ℕ, Bool, true, false, ◌&&◌, List, [], ◌∷◌, Option, none, some, String, if◌then◌else◌, length,
  nat_eq, string_eq,
}
use batch_processing_kit.Prelude.Dict.{lookup}
use batch_processing_kit.WorkItem.{WorkItemResult}
use batch_processing_kit.BatchStatus.{Scratch, batch_exists}
use batch_processing_kit.Files.Disk.{Disk, Io, does, os_error, write_json_file_atomic}
use batch_processing_kit.Orchestrator.State.{Orchestrator}

-- What is read under the accounting lock.
pub record Snapshot : Type 0 where
  pub work_results : List (String × Option WorkItemResult)
  pub file_queue_size : ℕ
  pub num_running : ℕ
  pub batch_id : Option ℕ

unfoldable pub snapshot : Orchestrator → Snapshot
snapshot o = record {
  work_results = o.work_results;
  file_queue_size = o.file_queue_size;
  num_running = length o.in_progress;
  batch_id = o.on_batch_id;
}

-- The batch's summarizer, if there is one, which is also given the number of endpoint managers; the
-- path of the singleton summary, if the client has one; and where a batch's summary is.
pub record Summaries : Type 0 where
  pub summarizer : Option (Snapshot → ℕ → String)
  pub singleton_path : Option String
  pub run_summary_path : ℕ → String
  pub temporary : String

abbrev pub summary_json : Option (Snapshot → ℕ → String) → Orchestrator → String
summary_json none o = "{}"
summary_json (some summarize) o = summarize (snapshot o) (length o.endpoint_managers)

pub data SetSummary : Type 0 where
  was_set : Disk → SetSummary
  batch_not_found : SetSummary
  write_failed : Disk → SetSummary

abbrev as_set : Io → SetSummary
as_set (does d) = was_set d
as_set (os_error d) = write_failed d

-- `set_run_summary` writes with the default of three retries.
unfoldable pub set_run_summary : Summaries → Scratch → ℕ → String → Disk → SetSummary
set_run_summary m s b text d =
    if batch_exists b s
    then as_set (write_json_file_atomic 3 m.temporary (m.run_summary_path b) text d)
    else batch_not_found

-- `run_summary`: `none` is the BatchNotFoundException.
unfoldable pub run_summary : Summaries → Scratch → ℕ → Disk → Option String
run_summary m s b d =
    if batch_exists b s
    then elim (lookup (m.run_summary_path b) d.files) [ none ↦ some "{}" | some text ↦ some text ]
    else none

-- A batch that is no longer there is benign.
abbrev benign : Disk → SetSummary → Io
benign d (was_set d') = does d'
benign d batch_not_found = does d
benign d (write_failed d') = os_error d'

abbrev set_for : Summaries → Scratch → Option ℕ → String → Disk → Io
set_for m s none text d = does d
set_for m s (some b) text d = benign d (set_run_summary m s b text d)

abbrev pub write_to : Summaries → Option String → ℕ → Scratch → Option ℕ → String → Disk → Io
write_to m (some path) write_retries s b text d =
    write_json_file_atomic write_retries m.temporary path text d
write_to m none write_retries s b text d = set_for m s b text d

abbrev pub tolerated : Bool → Io → Io
tolerated allow_fail (does d) = does d
tolerated allow_fail (os_error d) = if allow_fail then does d else os_error d

unfoldable pub write_summary_information :
    Summaries → Bool → ℕ → Bool → Orchestrator → Scratch → Disk → Io
write_summary_information m write_run_summary write_retries allow_fail o s d =
    if write_run_summary
    then tolerated allow_fail (
        write_to m m.singleton_path write_retries s (snapshot o).batch_id
          (summary_json m.summarizer o) d)
    else does d

abbrev has_batch : Option ℕ → Bool
has_batch none = false
has_batch (some b) = true

abbrev has_summarizer : Option (Snapshot → ℕ → String) → Bool
has_summarizer none = false
has_summarizer (some f) = true

abbrev pub disk_after : Io → Disk
disk_after (does d) = d
disk_after (os_error d) = d

-- The loop of the summary thread over the states that it sees, each behind the gate: an error is
-- logged, and the thread goes on until it sees the stop.
unfoldable pub run_summary_loop : Summaries → List (Orchestrator × Scratch) → Disk → Disk
run_summary_loop m [] d = d
run_summary_loop m ((o, s) ∷ states) d =
    if o.stop_requested
    then d
    else run_summary_loop m states (
        if has_batch o.on_batch_id && has_summarizer m.summarizer
        then disk_after (write_summary_information m true 5 false o s d)
        else d)
