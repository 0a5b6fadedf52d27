-- ===== src/Master/Finished.antt =====
-- batchkit/orchestrator.py: "Intentionally change status enum last so that above results committed
-- first for any event-driven observers", in the loop of the master thread.
use batch_processing_kit.Prelude.{
  ℕ, ◌≡◌, refl, true, false, List, [], ◌∷◌, ◌++◌, some, String, ◌==◌, nat_eq, string_eq, All, ap,
  ◌∙◌, sym, append_assoc,
}
use batch_processing_kit.BatchStatus.{BatchStatusEnum, done}
use batch_processing_kit.BatchStatus.Lifecycle.{HasStatus}
use batch_processing_kit.Prelude.Dict.{lookup-insert}
use batch_processing_kit.Files.Disk.{collect_results}
use batch_processing_kit.Orchestrator.{BatchRequest}
use batch_processing_kit.Master.{
  Setting, World, Stage, checking, combining, Turn, masters, works, creates, deletes, writes,
  take_turn, run_turns, combined_results_path,
}
use batch_processing_kit.Master.Turns.{kept, deletes-Moved, creates-Moved}
use batch_processing_kit.Master.Valid.{reads_done, Valid, HasResults, moved-Valid, Valid-HasResults}
use batch_processing_kit.Master.Steps.{round_step-Valid}

-- The text of the results that were collected from the disk as it was when the master thread was about
-- to combine them, after some of the turns.
abbrev pub Collected : Setting → BatchRequest → List Turn → Stage × World → String → Type 0
Collected c r ts at text =
    (before : List Turn) × (later : List Turn) × (rs : List String) × (ts ≡ before ++ later)
    × ((run_turns c r before at).0 ≡ combining false)
    × (collect_results c.os_path c.json (c.batch_base_path r.batch_id)
          (run_turns c r before at).1.disk r.files
        ≡ some rs)
    × (text ≡ c.json.dumps rs)

-- A turn that does not write to the path.
abbrev pub IsElsewhere : String → Turn → Type 0
IsElsewhere path (writes target text) = (target == path) ≡ false
IsElsewhere path t = Unit

module _ (c : Setting) (r : BatchRequest) (name : String) where
  abbrev b : ℕ
  b = r.batch_id

  abbrev file : String
  file = combined_results_path c r.batch_id

  run_turns-next :
      (ts : List Turn) (t : Turn) (at : Stage × World)
      → run_turns c r (ts ++ t ∷ []) at ≡ take_turn c r t (run_turns c r ts at)
  unfolding run_turns
  run_turns-next [] t at = refl
  run_turns-next (x ∷ ts) t at = run_turns-next ts t (take_turn c r x at)

  module _ (wants : r.combine_results ≡ true) (own : c.file_of file ≡ some (b, name))
      (all : List Turn) (at : Stage × World) where
    abbrev Q : String → Type 0
    Q = Collected c r all at

    take_turn-Valid :
        (t : Turn) (before later : List Turn) (stage : Stage) (w : World)
        → all ≡ before ++ later
        → run_turns c r before at ≡ (stage, w)
        → IsElsewhere file t
        → Valid Q file b (stage, w)
        → Valid Q file b (take_turn c r t (stage, w))
    unfolding take_turn
    take_turn-Valid (masters config unlinks) before later stage w split here apart v =
        round_step-Valid c r Q w wants config unlinks stage
          (λ rs combines fine. (
            before,
            later,
            rs,
            split,
            ap (λ (x : Stage × World). x.0) here ∙ combines,
            ap
                  (λ (x : Stage × World).
                    collect_results c.os_path c.json (c.batch_base_path b) x.1.disk r.files)
                  here
                ∙ fine,
            refl,
          ))
          v
    take_turn-Valid (works o) before later stage w split here apart v =
        moved-Valid Q file b w _ (λ e h. kept h refl) stage v
    take_turn-Valid (creates other) before later stage w split here apart v =
        moved-Valid Q file b w _ (λ e h. creates-Moved c b file name own other e w h) stage v
    take_turn-Valid (deletes unlinks other) before later stage w split here apart v =
        moved-Valid Q file b w _ (λ e h. deletes-Moved c b file name own unlinks other e w h) stage
          v
    take_turn-Valid (writes target text) before later stage w split here apart v =
        moved-Valid Q file b w _
          (λ e h. kept h (lookup-insert target file text w.disk.files ∙ rw apart refl)) stage v

    run_turns-Valid :
        (later before : List Turn) (stage : Stage) (w : World)
        → all ≡ before ++ later
        → run_turns c r before at ≡ (stage, w)
        → All (IsElsewhere file) later
        → Valid Q file b (stage, w)
        → Valid Q file b (run_turns c r later (stage, w))
    unfolding run_turns
    run_turns-Valid [] before stage w split here apart v = v
    run_turns-Valid (t ∷ later) before stage w split here apart v =
        run_turns-Valid later (before ++ t ∷ []) (take_turn c r t (stage, w)).0
          (take_turn c r t (stage, w)).1 (split ∙ sym (append_assoc before (t ∷ []) later))
          (run_turns-next before t at ∙ ap (take_turn c r t) here) apart.1
          (take_turn-Valid t before (t ∷ later) stage w split here apart.0 v)

-- Whatever turns the workers and the API server take between the steps of the master thread, and
-- whatever operations of the disk fail or break off: if a request wants its results combined, its
-- batch is not done when the round starts, the combined file is in the directory of that batch
-- alone, and no worker writes to it, then at any time in the round at which the batch reads as
-- done the combined file is there, and has the text of the results that were collected from the
-- disk as it was at a time when the master thread was about to combine them.
pub run_turns-combined :
    (c : Setting) (r : BatchRequest) (name : String) (ts : List Turn) (e : BatchStatusEnum)
    (w : World)
    → r.combine_results ≡ true
    → c.file_of (combined_results_path c r.batch_id) ≡ some (r.batch_id, name)
    → HasStatus r.batch_id e w.scratch
    → reads_done e ≡ false
    → All (IsElsewhere (combined_results_path c r.batch_id)) ts
    → HasStatus r.batch_id done (run_turns c r ts (checking, w)).1.scratch
    → HasResults
        (Collected c r ts (checking, w))
        (combined_results_path c r.batch_id)
        (run_turns c r ts (checking, w)).1
unfolding run_turns
run_turns-combined c r name ts e w wants own h undone apart over =
    Valid-HasResults (Collected c r ts (checking, w)) (combined_results_path c r.batch_id)
      r.batch_id (run_turns c r ts (checking, w)).0 (run_turns c r ts (checking, w)).1
      (run_turns-Valid c r name wants own ts (checking, w) ts [] checking w refl refl apart
        (e, h, undone))
      over
