-- ===== src/Client/OneShot.antt =====
-- batchkit/client.py: the run of OneShotClient.
use batch_processing_kit.Prelude.{
  ℕ, Bool, false, List, [], ◌∷◌, Option, none, some, String, if◌then◌else◌, ◌==◌, nat_eq,
}
use batch_processing_kit.BatchStatus.{Scratch, rm_batch}
use batch_processing_kit.Files.{OsPath}
use batch_processing_kit.Files.Disk.{
  Disk, Io, does, os_error, ResultsJson, write_single_output_json,
}
use batch_processing_kit.Client.Sync.{Synced, finished}

-- How a run ends: with its result, or with an error that leaves it; none where the batch is still
-- waited for.
pub data Ran : Type 0 where
  returned : Bool → Disk → Scratch → Ran
  crashed : Ran
  runs_on : Ran

-- Whether the final run summary has no failed file; `none` is one that cannot be read.
abbrev no_failures : Option ℕ → Bool
no_failures none = false
no_failures (some n) = n == 0

abbrev cleaned_up : ℕ → Option ℕ → Scratch → Option Io → Ran
cleaned_up b num_failed s none = crashed
cleaned_up b num_failed s (some (os_error d)) = crashed
cleaned_up b num_failed s (some (does d)) = returned (no_failures num_failed) d (rm_batch b s)

-- The files that were found, the wait for their batch, and the summary's number of failed files. The
-- orchestrator is then told to stop.
unfoldable pub run :
    OsPath
    → ResultsJson
    → String
    → Bool
    → ℕ
    → List String
    → Synced
    → Option ℕ
    → Disk
    → Scratch
    → Ran
run p j output_folder store_combined_json b [] synced num_failed d s = returned false d s
run p j output_folder store_combined_json b (f ∷ files) (finished d') num_failed d s =
    cleaned_up b num_failed s (
      if store_combined_json
      then write_single_output_json p j (f ∷ files) output_folder d'
      else some (does d'))
run p j output_folder store_combined_json b (f ∷ files) (Synced.still_waiting d') num_failed d s =
    runs_on
run p j output_folder store_combined_json b (f ∷ files) synced num_failed d s = crashed
