-- ===== src/Examples/Scratches.antt =====
-- A scratch directory with two batches, and a third that is missing.
use batch_processing_kit.Prelude.{
  ◌≡◌, refl, Bool, true, false, [], ◌∷◌, some, none, ◌||◌, String, not, ◌==◌, string_eq, nat_eq,
}
use batch_processing_kit.Prelude.Dict.{contains, lookup, insert}
use batch_processing_kit.BatchStatus.{
  clear_files, assert_batch_exists, by_name, BatchDir, Scratch, running, done, deleted, returns,
  after, change_status_enum, status_enum, is_deleted, status, delete_batch, leftovers,
}
use batch_processing_kit.BatchStatus.Master.{announces, concludes, creates, conclude, touch_all}
use batch_processing_kit.BatchStatus.Watch.{
  Watches, callbacks_of, register_watch, process_close_write, Inotify, written,
}
use batch_processing_kit.BatchStatus.Wakes.{
  waiting_on, wakes, process_close_write-Woken, register-process,
}
use batch_processing_kit.BatchStatus.Deletion.{deletion-HasStatus, conclude-status_enum}
use batch_processing_kit.BatchStatus.Lifecycle.{HasStatus, delete_batch-deleted}
use batch_processing_kit.BatchStatus.Paths.{
  associated_batch_id, match_batch, batch_name, associated_batch_id-batch_name,
}
use batch_processing_kit.Prelude.Text.{codes}
use batch_processing_kit.Prelude.{◌++◌}

abbrev dir : BatchDir
dir = record { status_file = some "running"; files = "results.json" ∷ "locked" ∷ [] }

abbrev scratch : Scratch
scratch = (1, dir) ∷ (2, record { status_file = some "done"; files = [] }) ∷ []

abbrev unlinks : String → Bool
unlinks f = not (f == "locked")

on_file : HasStatus 1 running scratch
unfolding lookup
on_file = (dir, refl, refl)

deleted_first : HasStatus 1 deleted (after (delete_batch unlinks 1 scratch))
unfolding delete_batch change_status_enum clear_files status status_enum assert_batch_exists lookup
    insert by_name
deleted_first = (
  record {
    status_file = some "deleted";
    files = leftovers unlinks ("results.json" ∷ "locked" ∷ []);
  },
  refl,
  refl,
)

delete_batch-deleted_example :
    (delete_batch unlinks 1 scratch
      ≡ returns
          (record {
            batch_id = 1;
            status = deleted;
            has_results_dir = true;
            has_combined_results = false;
          })
          (after (delete_batch unlinks 1 scratch)))
    × (is_deleted 1 (after (delete_batch unlinks 1 scratch))
        ≡ returns true (after (delete_batch unlinks 1 scratch)))
    × (lookup 1 (after (delete_batch unlinks 1 scratch))
        ≡ some (record {
          status_file = some "deleted";
          files = leftovers unlinks ("results.json" ∷ "locked" ∷ []);
        }))
    × (lookup 2 (after (delete_batch unlinks 1 scratch)) ≡ lookup 2 scratch)
unfolding lookup
delete_batch-deleted_example = delete_batch-deleted 1 2 unlinks scratch dir refl refl

deletion-HasStatus_example : HasStatus 1 deleted (
    touch_all
      (concludes unlinks 1 ∷ announces 2 ∷ creates 1 ∷ [])
      (after (delete_batch unlinks 1 scratch)))
deletion-HasStatus_example =
    deletion-HasStatus (concludes unlinks 1 ∷ announces 2 ∷ creates 1 ∷ []) 1
      (after (delete_batch unlinks 1 scratch)) deleted_first

conclude-status_enum_example :
    status_enum 1 (after (conclude unlinks 1 scratch))
    ≡ returns done (after (conclude unlinks 1 scratch))
conclude-status_enum_example = conclude-status_enum 1 running unlinks scratch on_file

abbrev no_watches : Watches
no_watches = record { callbacks = []; watched = []; toggled = [] }

abbrev finished : Scratch
finished = (1, record { status_file = some "done"; files = [] }) ∷ []

finished-HasStatus : HasStatus 1 done finished
unfolding lookup
finished-HasStatus = (record { status_file = some "done"; files = [] }, refl, refl)

abbrev inotify : Inotify
inotify = record { reports = λ watched b. contains b watched }

register-process_example :
    contains 9
      (written inotify 1 finished (register_watch 9 1 done scratch scratch no_watches).1).1.toggled
    ≡ true
unfolding contains lookup wakes
register-process_example =
    register-process inotify 9 1 done running running done scratch scratch finished no_watches
      (λ ws c told. told) on_file on_file finished-HasStatus refl refl

process_close_write-Woken_example :
    ((process_close_write 1 finished (register_watch 9 1 done scratch scratch no_watches).1).0
      ≡ none)
    × (callbacks_of 1
          (process_close_write 1 finished (register_watch 9 1 done scratch scratch no_watches).1).1
        ≡ waiting_on done (callbacks_of 1 (register_watch 9 1 done scratch scratch no_watches).1))
    × (contains 9
          (process_close_write 1 finished
            (register_watch 9 1 done scratch scratch no_watches).1).1.toggled
        ≡ (wakes done 9 (callbacks_of 1 (register_watch 9 1 done scratch scratch no_watches).1)
            || contains 9 (register_watch 9 1 done scratch scratch no_watches).1.toggled))
process_close_write-Woken_example =
    process_close_write-Woken 1 done 9 finished
      (register_watch 9 1 done scratch scratch no_watches).1 finished-HasStatus

associated_batch_id-batch_name_example :
    associated_batch_id (codes "/s/" ++ batch_name 12 ++ codes "/.") ≡ some 12
unfolding associated_batch_id match_batch
associated_batch_id-batch_name_example =
    associated_batch_id-batch_name (codes "/s/") (codes "/.") 12 (refl, (refl, (refl, tt))) refl
      refl
