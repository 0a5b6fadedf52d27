-- ===== src/Master/Ends.antt =====
-- batchkit/orchestrator.py: the round of the master thread comes to an end.
use batch_processing_kit.Prelude.{ℕ, ◌+◌, List, [], ◌∷◌, if◌then◌else◌}
use batch_processing_kit.BatchStatus.{
  Result as StatusResult, returns as status_returns, raises as status_raises,
}
use batch_processing_kit.Files.Disk.{Disk}
use batch_processing_kit.Orchestrator.{BatchRequest, Result, returns, raises}
use batch_processing_kit.Master.{
  Setting, World, Stage, checking, swapping, starting, announcing, canceling, awaiting, rechecking,
  summarizing, combining, concluding, closing, ready, stopped, died, Turn, masters, take_turn,
}

-- The steps that are left at most, once the batch is complete.
abbrev pub rank : Stage → ℕ
rank checking = 11
rank swapping = 10
rank starting = 9
rank announcing = 8
rank canceling = 7
rank awaiting = 6
rank rechecking = 5
rank (summarizing gone) = 4
rank (combining gone) = 3
rank concluding = 2
rank closing = 1
rank ready = 0
rank stopped = 0
rank died = 0

-- The round is over: the thread is ready for the next request, has returned, or has died.
pub data IsOver : Stage → Type 0 where
  goes_on : IsOver ready
  has_returned : IsOver stopped
  has_died : IsOver died

-- A step of the master thread that is not spent waiting for the completion of the batch.
abbrev pub effective : Turn → Stage × World → ℕ
effective (masters config unlinks) (awaiting, w) = if w.orchestrator.batch_completion then 1 else 0
effective (masters config unlinks) (stage, w) = 1
effective t at = 0

unfoldable pub effective_steps : Setting → BatchRequest → List Turn → Stage × World → ℕ
effective_steps c r [] at = 0
effective_steps c r (t ∷ ts) at = effective t at + effective_steps c r ts (take_turn c r t at)
