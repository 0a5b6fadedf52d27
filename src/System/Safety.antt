-- ===== src/System/Safety.antt =====
-- The system under any event and any run of events.
use batch_processing_kit.Prelude.{ℕ, refl, inl, inr, Bool, List, [], ◌∷◌, arith, Option-cases}
use batch_processing_kit.WorkItem.{WorkItemResult}
use batch_processing_kit.Orchestrator.{after}
use batch_processing_kit.Orchestrator.Lifecycle.{IsIdle, IsIdle-Inv}
use batch_processing_kit.System.{
  System, Event, steals, reports, swaps, cancels, stops, submits, receives, starts, get_elem?, next,
  run, Allowed, IsRun, Quiet, IsQuietRun, created,
}
use batch_processing_kit.System.Held.{SystemInv, live}
use batch_processing_kit.System.Steals.{steals-System}
use batch_processing_kit.System.Reports.{deliver-Reported}
use batch_processing_kit.System.Swaps.{swaps-System}
use batch_processing_kit.System.Requests.{submits-System, receives-System}
use batch_processing_kit.System.Ends.{cancels-System, stops-System, starts-System}

report-System :
    (s : System) (n : ℕ) (r : WorkItemResult)
    → SystemInv s
    → SystemInv (next (reports n r) s) × Quiet (reports n r) s
unfolding next
report-System s n r v = elim (Option-cases (get_elem? s.outstanding n)) [
  | inl nothing ↦ rw nothing (v, tt)
  | inr ((m, f), found) ↦ rw found (deliver-Reported s n m f v found r)
]

-- From a state with the system's invariant, every allowed event keeps it, and the call that the
-- event makes returns.
pub next-System :
    (s : System) (e : Event) → SystemInv s → Allowed e s → SystemInv (next e s) × Quiet e s
unfolding next
next-System s (steals m) v a = steals-System s m v a
next-System s (reports n r) v a = report-System s n r v
next-System s (swaps l) v a = swaps-System s l v
next-System s (cancels b) v a = cancels-System s v b
next-System s stops v a = stops-System s v
next-System s (submits r) v a = (submits-System s r v, tt)
next-System s receives v a = receives-System s v
next-System s (starts r) v a = starts-System s v r a

run-System :
    (es : List Event) (s : System)
    → SystemInv s
    → IsRun es s
    → SystemInv (run es s) × IsQuietRun es s
unfolding run
run-System [] s v h = (v, tt)
run-System (e ∷ es) s v h =
    let (after, quiet) = next-System s e v h.0 in
    let (end, all) = run-System es (next e s) after h.1 in (end, (quiet, all))

abbrev pub start : Bool → System
start singleton = record { orchestrator = created singleton; outstanding = [] }

pub created-IsIdle : (singleton : Bool) → IsIdle (created singleton)
unfolding created
created-IsIdle singleton = record { size = refl; queue = refl; work = refl; owner = refl }

pub start-System : (singleton : Bool) → SystemInv (start singleton)
unfolding created live
start-System singleton = record {
  inv = IsIdle-Inv _ (created-IsIdle singleton);
  well_named = tt;
  held = tt;
  apart = λ f. omega arith;
  completed = λ h. absurd (cc);
  unstarted = λ h. inr (created-IsIdle singleton);
}

-- From a new orchestrator, in every run of allowed events, where only managers that were created steal,
-- each batch starts after the last one has completed, and no batch that starts names a file
-- twice, no call raises: no IndexError from the
-- work queue, no KeyError from the dictionaries of work in progress, no failed assertion at the
-- start of a batch.
pub run-IsQuietRun :
    (singleton : Bool) (es : List Event)
    → IsRun es (start singleton)
    → IsQuietRun es (start singleton)
run-IsQuietRun singleton es h = (run-System es (start singleton) (start-System singleton) h).1

-- In every state that a run of allowed events reaches from a new orchestrator, the count of queued
-- work is the length of the queue, no
-- file is both queued and in progress or in either twice, and once a batch is marked complete
-- nothing is queued or in progress unless a stop was requested.
pub run-SystemInv :
    (singleton : Bool) (es : List Event)
    → IsRun es (start singleton)
    → SystemInv (run es (start singleton))
run-SystemInv singleton es h = (run-System es (start singleton) (start-System singleton) h).0
