-- ===== src/BatchStatus/Master.antt =====
-- batchkit/orchestrator.py: what the master thread does to the status of a batch while it holds
-- the status provider's lock, and the other writers of statuses.
use batch_processing_kit.Prelude.{ℕ, Bool, true, false, List, [], ◌∷◌, String, if◌then◌else◌}
use batch_processing_kit.BatchStatus.{
  running, done, Scratch, Action, after, return, ◌>>=◌, ◌>>◌, change_status_enum, is_deleted,
  new_batch, delete_batch,
}

-- A batch that was started is marked as running, unless it was deleted; the result says whether
-- it has to be canceled.
unfoldable pub announce : ℕ → Action Bool
announce b = do
  gone ← is_deleted b
  if gone then return true else (change_status_enum b running >> return false)

-- A batch that was completed is marked as done, and one that was deleted is deleted again.
unfoldable pub conclude : (String → Bool) → ℕ → Action (Unit {0})
conclude unlinks b = do
  gone ← is_deleted b
  if gone then (delete_batch unlinks b >> return tt) else change_status_enum b done

pub data Touch : Type 0 where
  creates : ℕ → Touch
  announces : ℕ → Touch
  concludes : (String → Bool) → ℕ → Touch
  deletes : (String → Bool) → ℕ → Touch

unfoldable pub touch : Touch → Scratch → Scratch
touch (creates c) s = after (new_batch c s)
touch (announces c) s = after (announce c s)
touch (concludes unlinks c) s = after (conclude unlinks c s)
touch (deletes unlinks c) s = after (delete_batch unlinks c s)

unfoldable pub touch_all : List Touch → Scratch → Scratch
unfolding touch
touch_all [] s = s
touch_all (t ∷ ts) s = touch_all ts (touch t s)
