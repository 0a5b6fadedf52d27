-- ===== src/System/Requests.antt =====
-- The system under changes of the submission queue and of the type of the batch
-- (batchkit/orchestrator.py, batchkit/apiserver.py).
use batch_processing_kit.Prelude.{
  ◌≡◌, ◌⊎◌, inl, inr, List, [], ◌∷◌, Option, String, arith, true, All-map,
}
use batch_processing_kit.Endpoint.{Manager}
use batch_processing_kit.Orchestrator.{Orchestrator, BatchRequest, after, IsReturned, is_old}
use batch_processing_kit.Orchestrator.Lifecycle.{IsIdle}
use batch_processing_kit.Orchestrator.Batches.{submit, receive, receive_from, type_of}
use batch_processing_kit.Endpoint.{BatchType}
use batch_processing_kit.System.{System}
use batch_processing_kit.System.Held.{Held, SystemInv, live_mono}

abbrev requested : List (Option BatchRequest) → Option BatchType → Orchestrator → Orchestrator
requested queue type o = record o { submission_queue = queue; on_batch_type = type }

requested-System :
    (queue : List (Option BatchRequest)) (type : Option BatchType) (s : System)
    → SystemInv s
    → SystemInv (record s { orchestrator = requested queue type s.orchestrator })
unfolding is_old
requested-System queue type s v = record {
  inv = record {
    counted = v.inv.counted;
    owned = v.inv.owned;
    named = v.inv.named;
    once = v.inv.once;
  };
  well_named = v.well_named;
  held = All-map each s.outstanding v.held;
  apart = λ f. omega (
    arith,
    live_mono s.orchestrator (requested queue type s.orchestrator) (λ k h. h) f s.outstanding,
    v.apart f,
  );
  completed = λ h. quiet (v.completed h);
  unstarted = λ h. quiet (v.unstarted h);
}
  where
    each :
        (e : Manager × String)
        → Held s.orchestrator e
        → Held (requested queue type s.orchestrator) e
    each (k, f) (inl h) = inl h
    each (k, f) (inr h) =
        inr (record { owner = h.owner; listed = h.listed; well_named = h.well_named })

    quiet :
        (s.orchestrator.stop_requested ≡ true) ⊎ IsIdle s.orchestrator
        → (s.orchestrator.stop_requested ≡ true) ⊎ IsIdle (requested queue type s.orchestrator)
    quiet (inl stops) = inl stops
    quiet (inr i) = inr (record { size = i.size; queue = i.queue; work = i.work; owner = i.owner })

pub submits-System :
    (s : System) (r : BatchRequest)
    → SystemInv s
    → SystemInv (record s { orchestrator = submit r s.orchestrator })
unfolding submit
submits-System s r v = requested-System _ s.orchestrator.on_batch_type s v

received-System :
    (queue : List (Option BatchRequest)) (s : System)
    → SystemInv s
    → SystemInv (record s { orchestrator = after (receive_from queue s.orchestrator) })
      × IsReturned (receive_from queue s.orchestrator)
received-System [] s v = (v, tt)
received-System (r ∷ rest) s v = (requested-System rest (type_of r) s v, tt)

pub receives-System :
    (s : System)
    → SystemInv s
    → SystemInv (record s { orchestrator = after (receive s.orchestrator) })
      × IsReturned (receive s.orchestrator)
unfolding receive
receives-System s v = received-System s.orchestrator.submission_queue s v
