-- ===== src/BatchStatus/Watch.antt =====
-- batchkit/batch_status.py: watches on the status of a batch. An event is a number that is in
-- `toggled` once it is set. A watch of inotify stands for the path's batch; `process_close_write`
-- is what its thread does when the status of batch `b` was written.
use batch_processing_kit.Prelude.{
  ℕ, Bool, true, false, List, [], ◌∷◌, Option, none, some, if◌then◌else◌, leb, nat_eq,
}
use batch_processing_kit.Prelude.Dict.{lookup, insert, add, remove}
use batch_processing_kit.BatchStatus.{
  BatchStatusEnum, value, Scratch, Error, BatchStatus, Result, returns, raises, status_enum, status,
}

pub record Callback : Type 0 where
  pub event : ℕ
  pub target : BatchStatusEnum

pub record Watches : Type 0 where
  pub callbacks : List (ℕ × List Callback)
  pub watched : List ℕ
  pub toggled : List ℕ

abbrev pub reaches : BatchStatusEnum → BatchStatusEnum → Bool
reaches e target = leb (value target) (value e)

-- `defaultdict(list)`
abbrev pub callbacks_of : ℕ → Watches → List Callback
callbacks_of b w = elim (lookup b w.callbacks) [ none ↦ [] | some cbs ↦ cbs ]

abbrev pub toggle : ℕ → Watches → Watches
toggle evt w = record w { toggled = add evt w.toggled }

abbrev pub append_callback : List Callback → Callback → List Callback
append_callback [] c = c ∷ []
append_callback (d ∷ ds) c = d ∷ append_callback ds c

-- The callback is appended, and the path of the status put under watch.
unfoldable pub place : ℕ → ℕ → BatchStatusEnum → Watches → Watches
place evt b target w = record w {
  callbacks =
      insert b (append_callback (callbacks_of b w) (record { event = evt; target = target }))
        w.callbacks;
  watched = add b w.watched;
}

-- The second reading of the status.
abbrev pub checked_again :
    ℕ → BatchStatusEnum → Watches → Result BatchStatusEnum → Option Error × Watches
checked_again evt target w (returns e s) =
    if reaches e target then (none, toggle evt w) else (none, w)
checked_again evt target w (raises x s) = (some x, w)

abbrev pub registered :
    ℕ → ℕ → BatchStatusEnum → Scratch → Watches → Result BatchStatusEnum → Option Error × Watches
registered evt b target again w (returns e s) =
    if reaches e target
    then (none, toggle evt w)
    else checked_again evt target (place evt b target w) (status_enum b again)
registered evt b target again w (raises x s) = (some x, w)

-- The scratch directory is read twice: it is `s`, and `again` at the second reading.
unfoldable pub register_watch :
    ℕ → ℕ → BatchStatusEnum → Scratch → Scratch → Watches → Option Error × Watches
register_watch evt b target s again w = registered evt b target again w (status_enum b s)

-- One callback: whether it should be called again, and the events after it.
abbrev pub call : BatchStatusEnum → Callback → List ℕ → Bool × List ℕ
call e c toggled = if reaches e c.target then (false, add c.event toggled) else (true, toggled)

-- The loop over the callbacks: those to keep, and the events that are set after it.
unfoldable pub call_all : BatchStatusEnum → List Callback → List ℕ → List Callback × List ℕ
call_all e [] toggled = ([], toggled)
call_all e (c ∷ cs) toggled =
    let (again, after_one) = call e c toggled in
    let (kept, after_all) = call_all e cs after_one in (if again then c ∷ kept else kept, after_all)

abbrev pub unwatch : ℕ → List Callback → List ℕ → List ℕ
unwatch b [] watched = remove b watched
unwatch b (c ∷ cs) watched = watched

abbrev pub answered : ℕ → Watches → Result BatchStatus → Option Error × Watches
answered b w (returns answer s) =
    let (kept, toggled) = call_all answer.status (callbacks_of b w) w.toggled in
    (
      none,
      record {
        callbacks = insert b kept w.callbacks;
        watched = unwatch b kept w.watched;
        toggled = toggled;
      },
    )
answered b w (raises x s) = (some x, w)

abbrev pub notify : ℕ → Scratch → Watches → List Callback → Option Error × Watches
notify b s w [] =
    (none, record w { callbacks = insert b [] w.callbacks; watched = remove b w.watched })
notify b s w (c ∷ cs) = answered b w (status b s)

-- Of which batches inotify reports a write, by the batches that are under watch.
pub record Inotify : Type 0 where
  pub reports : List ℕ → ℕ → Bool

unfoldable pub process_close_write : ℕ → Scratch → Watches → Option Error × Watches
process_close_write b s w = notify b s w (callbacks_of b w)

-- A write of the status of batch `b`, which the handler sees if inotify reports it.
unfoldable pub written : Inotify → ℕ → Scratch → Watches → Option Error × Watches
written i b s w = if i.reports w.watched b then process_close_write b s w else (none, w)
