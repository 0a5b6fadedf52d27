-- ===== src/Master.antt =====
-- batchkit/orchestrator.py: `_master_thread_loop`, over the orchestrator, the scratch directory and
-- the disk. What runs under one lock is one step, and other threads may act between two steps.
pub mod Turns
pub mod Valid
pub mod Steps
pub mod Finished
pub mod Ends
use batch_processing_kit.Prelude.{
  ℕ, Bool, true, false, not, ◌&&◌, List, [], ◌∷◌, Option, none, some, String, if◌then◌else◌, ◌==◌,
  nat_eq, string_eq,
}
use batch_processing_kit.Prelude.Dict.{insert}
use batch_processing_kit.BatchStatus.{
  Result as StatusResult, returns as status_returns, raises as status_raises, after as status_after,
  Scratch, new_batch, delete_batch, is_deleted,
}
use batch_processing_kit.BatchStatus.Master.{announce, conclude}
use batch_processing_kit.Files.{OsPath}
use batch_processing_kit.Files.Disk.{
  Disk, Io, does, os_error, ResultsJson, write_single_output_json,
}
use batch_processing_kit.Orchestrator.{Orchestrator, BatchRequest, Result, returns, raises}
use batch_processing_kit.Orchestrator.Hotswap.{Loaded, hotswap_endpoint_managers}
use batch_processing_kit.Orchestrator.Batches.{cancel_running_batch, receive, start_batch}
use batch_processing_kit.Orchestrator.Summaries.{
  Summaries, Snapshot, write_summary_information, disk_after,
}

-- What the process runs with: its paths, the JSON library, the summarizer of each class of request
-- (`get_batch_run_summarizer`), and for a path in the directory of a batch, the batch and the file.
pub record Setting : Type 0 where
  pub os_path : OsPath
  pub json : ResultsJson
  pub summarizer_of : String → Option (Snapshot → ℕ → String)
  pub singleton_summary : Option String
  pub batch_base_path : ℕ → String
  pub run_summary_path : ℕ → String
  pub temporary : String
  pub file_of : String → Option (ℕ × String)

-- `scratch` has the statuses and the names of the files, and `disk` has the texts.
pub record World : Type 0 where
  pub orchestrator : Orchestrator
  pub scratch : Scratch
  pub disk : Disk
  pub summarizer : Option (Snapshot → ℕ → String)

-- Where the master thread is; the two that carry a mark have read whether the batch is canceled.
pub data Stage : Type 0 where
  checking swapping starting announcing canceling awaiting rechecking : Stage
  summarizing combining : Bool → Stage
  concluding closing ready stopped died : Stage

abbrev pub summaries : Setting → World → Summaries
summaries c w = record {
  summarizer = w.summarizer;
  singleton_path = c.singleton_summary;
  run_summary_path = c.run_summary_path;
  temporary = c.temporary;
}

-- `combined_results_path`
abbrev pub combined_results_path : Setting → ℕ → String
combined_results_path c b = c.os_path.abspath (c.os_path.join (c.batch_base_path b) "results.json")

-- Of the files in a batch's directory, a deletion takes those that `os.unlink` can remove.
abbrev pub is_cleared : (String → Bool) → ℕ → Option (ℕ × String) → Bool
is_cleared unlinks b none = false
is_cleared unlinks b (some (owner, f)) = owner == b && unlinks f

unfoldable pub clear_texts :
    Setting → (String → Bool) → ℕ → List (String × String) → List (String × String)
clear_texts c unlinks b [] = []
clear_texts c unlinks b ((path, text) ∷ files) =
    let rest = clear_texts c unlinks b files in
    if is_cleared unlinks b (c.file_of path) then rest else (path, text) ∷ rest

abbrev pub cleared : Setting → (String → Bool) → ℕ → Disk → Disk
cleared c unlinks b d = record d { files = clear_texts c unlinks b d.files }

-- `_master_finalize`: no summary is written, and the conclusion that is logged is output.
unfoldable pub master_finalize : Setting → World → World
master_finalize c w =
    if w.orchestrator.singleton_run_summary
    then record w {
      disk =
          disk_after (
            write_summary_information (summaries c w) false 3 false w.orchestrator w.scratch
              w.disk);
    }
    else w

module _ (w : World) where
  abbrev pub swapped : Result (Unit {0}) → Stage × World
  swapped (returns u o) = (starting, record w { orchestrator = o })
  swapped (raises e o) = (died, record w { orchestrator = o })

  abbrev pub begun : Setting → BatchRequest → Result Bool → Stage × World
  begun c r (returns true o) = (
    announcing,
    record w { orchestrator = o; summarizer = c.summarizer_of r.batch_type.type_name },
  )
  begun c r (returns false o) = (stopped, master_finalize c (record w { orchestrator = o }))
  begun c r (raises e o) = (died, record w { orchestrator = o })

  abbrev pub started_none : Setting → Result Bool → Stage × World
  started_none c (returns x o) = (stopped, master_finalize c (record w { orchestrator = o }))
  started_none c (raises e o) = (died, record w { orchestrator = o })

  -- A read of whether the batch is deleted, and where the thread goes with the answer.
  abbrev pub deleted_or : (Bool → Stage) → StatusResult Bool → Stage × World
  deleted_or next (status_returns gone s) = (next gone, record w { scratch = s })
  deleted_or next (status_raises e s) = (died, record w { scratch = s })

  abbrev pub canceled : Result Bool → Stage × World
  canceled (returns x o) = (awaiting, record w { orchestrator = o })
  canceled (raises e o) = (died, record w { orchestrator = o })

  abbrev pub summarized : Bool → Io → Stage × World
  summarized gone (does d) = (combining gone, record w { disk = d })
  summarized gone (os_error d) = (died, record w { disk = d })

  abbrev pub combined : Option Io → Stage × World
  combined none = (died, w)
  combined (some (os_error d)) = (died, record w { disk = d })
  combined (some (does d)) = (concluding, record w { disk = d })

  -- A batch that is deleted again loses the files that came after its deletion.
  abbrev pub gone_disk : Setting → (String → Bool) → ℕ → StatusResult Bool → Disk
  gone_disk c unlinks b (status_returns true s) = cleared c unlinks b w.disk
  gone_disk c unlinks b (status_returns false s) = w.disk
  gone_disk c unlinks b (status_raises e s) = w.disk

  abbrev pub concluded : Disk → StatusResult (Unit {0}) → Stage × World
  concluded d (status_returns u s) = (closing, record w { scratch = s; disk = d })
  concluded d (status_raises e s) = (died, record w { scratch = s; disk = d })

abbrev pub after_check : Bool → Stage
after_check true = ready
after_check false = swapping

abbrev pub after_announce : Bool → Stage
after_announce true = canceling
after_announce false = awaiting

module _ (c : Setting) (config : Loaded) (unlinks : String → Bool) where
  -- One step of the round for a request, with the configuration that is on file, and the files that
  -- can be removed. The summary is written with ten retries, and its failure is allowed.
  unfoldable pub round_step : BatchRequest → Stage → World → Stage × World
  round_step r checking w = deleted_or w after_check (is_deleted r.batch_id w.scratch)
  round_step r swapping w = swapped w (hotswap_endpoint_managers config w.orchestrator)
  round_step r starting w = begun w c r (start_batch (some r) w.orchestrator)
  round_step r announcing w = deleted_or w after_announce (announce r.batch_id w.scratch)
  round_step r canceling w = canceled w (cancel_running_batch r.batch_id w.orchestrator)
  round_step r awaiting w = (if w.orchestrator.batch_completion then rechecking else awaiting, w)
  round_step r rechecking w = deleted_or w summarizing (is_deleted r.batch_id w.scratch)
  round_step r (summarizing gone) w =
      summarized w gone
        (write_summary_information (summaries c w) true 10 true w.orchestrator w.scratch w.disk)
  round_step r (combining gone) w =
      if not gone && r.combine_results
      then combined w
          (write_single_output_json c.os_path c.json r.files (c.batch_base_path r.batch_id) w.disk)
      else (concluding, w)
  round_step r concluding w =
      concluded w (gone_disk w c unlinks r.batch_id (is_deleted r.batch_id w.scratch))
        (conclude unlinks r.batch_id w.scratch)
  round_step r closing w =
      (ready, record w { orchestrator = record w.orchestrator { summary_gate = false } })
  round_step r ready w = (ready, w)
  round_step r stopped w = (stopped, w)
  round_step r died w = (died, w)

-- The sentinel of `request_stop`: the managers are replaced, and the loop returns. Without a stop
-- the code would ask None for its summarizer.
unfoldable pub take_sentinel : Setting → Loaded → World → Stage × World
take_sentinel c config w = elim (hotswap_endpoint_managers config w.orchestrator) [
  | returns u o ↦ started_none (record w { orchestrator = o }) c (start_batch none o)
  | raises e o ↦ (died, record w { orchestrator = o })
]

-- What the other threads do between two steps: the workers and the API server to the orchestrator,
-- the API server to a batch, and the workers to a file.
pub data Turn : Type 0 where
  masters : Loaded → (String → Bool) → Turn
  works : Orchestrator → Turn
  creates : ℕ → Turn
  deletes : (String → Bool) → ℕ → Turn
  writes : String → String → Turn

unfoldable pub take_turn : Setting → BatchRequest → Turn → Stage × World → Stage × World
take_turn c r (masters config unlinks) (stage, w) = round_step c config unlinks r stage w
take_turn c r (works o) (stage, w) = (stage, record w { orchestrator = o })
take_turn c r (creates b) (stage, w) =
    (stage, record w { scratch = status_after (new_batch b w.scratch) })
take_turn c r (deletes unlinks b) (stage, w) = (
  stage,
  record w {
    scratch = status_after (delete_batch unlinks b w.scratch);
    disk = cleared c unlinks b w.disk;
  },
)
take_turn c r (writes path text) (stage, w) =
    (stage, record w { disk = record w.disk { files = insert path text w.disk.files } })

-- The round for one request, over any order of turns.
unfoldable pub run_turns : Setting → BatchRequest → List Turn → Stage × World → Stage × World
run_turns c r [] at = at
run_turns c r (t ∷ ts) at = run_turns c r ts (take_turn c r t at)

abbrev is_ready : Stage → Bool
is_ready ready = true
is_ready _ = false

abbrev of_received :
    Setting → Loaded → List Turn → World → Result (Option (Option BatchRequest)) → Stage × World
of_received c config ts w (returns none o) = (ready, record w { orchestrator = o })
of_received c config ts w (returns (some none) o) =
    take_sentinel c config (record w { orchestrator = o })
of_received c config ts w (returns (some (some r)) o) =
    run_turns c r ts (checking, record w { orchestrator = o })
of_received c config ts w (raises e o) = (died, record w { orchestrator = o })

-- The loop, with the turns of each of its rounds; it goes on where a round ends ready for the next.
unfoldable pub master_thread_loop : Setting → List (Loaded × List Turn) → World → Stage × World
master_thread_loop c [] w = (ready, w)
master_thread_loop c ((config, ts) ∷ rounds) w =
    let (stage, w') = of_received c config ts w (receive w.orchestrator) in
    let rest = master_thread_loop c rounds w' in if is_ready stage then rest else (stage, w')
