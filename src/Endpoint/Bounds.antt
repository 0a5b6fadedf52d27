-- ===== src/Endpoint/Bounds.antt =====
-- batchkit/endpoint_manager.py: the counters of a manager and its configured concurrency.
use batch_processing_kit.Prelude.{
  ℕ, ◌+◌, ◌≤◌, ◌≡◌, refl, inl, inr, Bool, true, false, List, [], ◌∷◌, ltb, arith, Bool-cases,
  ltb→lt,
}
use batch_processing_kit.Endpoint.Capacity.{
  Phase, waiting, stealing, applying, ended, Worker, new_worker, look_from, take_from, apply_from,
  check_throttle, Turn, looks, takes, applies, calls_back, counts, gives_back, checks, is_stopped,
  turn, turns,
}

-- The request that the main loop is about to add.
abbrev pub about_to : Phase → ℕ
about_to waiting = 0
about_to stealing = 1
about_to applying = 0
about_to ended = 0

-- The request that the main loop has counted and not given to the pool yet.
abbrev pub in_hand : Phase → ℕ
in_hand waiting = 0
in_hand stealing = 0
in_hand applying = 1
in_hand ended = 0

pub record InBounds (w : Worker) : Type 0 where
  pub concurrency : w.current_concurrency ≤ w.config_concurrency
  pub requests : w.current_requests + about_to w.phase ≤ w.config_concurrency
  pub applied : w.cnt_apply_async ≡ w.current_requests + w.cnt_pool_cb_rets
  pub called : w.cnt_pool_cb ≡ w.cnt_pool_cb_rets + w.begun + w.told
  pub in_flight : w.current_requests ≡ in_hand w.phase + w.in_pool + w.begun + w.told

same_but_phase :
    (p : Phase) (stop : Bool) (w : Worker)
    → w.current_requests + about_to p ≤ w.config_concurrency
    → in_hand p ≡ in_hand w.phase
    → InBounds w
    → InBounds (record w { phase = p; stop_requested = stop })
same_but_phase p stop w fits hand h = record {
  concurrency = h.concurrency;
  requests = fits;
  applied = h.applied;
  called = h.called;
  in_flight = omega (arith, hand, h.in_flight);
}

look-InBounds : (p : Phase) (w : Worker) → w.phase ≡ p → InBounds w → InBounds (look_from p w)
look-InBounds waiting w e h =
    let hand : 0 ≡ in_hand w.phase = rw e refl in
    elim (Bool-cases w.stop_requested) [
      | inl stop ↦ rw stop (same_but_phase ended true w (omega (arith, h.requests)) hand h)
      | inr going ↦ elim (Bool-cases (ltb w.current_requests w.current_concurrency)) [
        | inl room ↦
            rw (going, room)
              (same_but_phase stealing false w (omega (arith, h.concurrency, ltb→lt _ _ room)) hand
                h)
        | inr full ↦ rw (going, full) (same_but_phase w.phase false w h.requests refl h)
      ]
    ]
look-InBounds stealing w e h = h
look-InBounds applying w e h = h
look-InBounds ended w e h = h

take-InBounds :
    (p : Phase) (is_sentinel : Bool) (w : Worker)
    → w.phase ≡ p
    → InBounds w
    → InBounds (take_from p is_sentinel w)
take-InBounds waiting is_sentinel w e h = h
take-InBounds stealing true w e h =
    same_but_phase ended true w (omega (arith, h.requests)) (rw e refl) h
take-InBounds stealing false w e h = record {
  concurrency = h.concurrency;
  requests = let r = rw e at h.requests in omega arith;
  applied = omega (arith, h.applied);
  called = h.called;
  in_flight = let r = rw e at h.in_flight in omega arith;
}
take-InBounds applying is_sentinel w e h = h
take-InBounds ended is_sentinel w e h = h

apply-InBounds : (p : Phase) (w : Worker) → w.phase ≡ p → InBounds w → InBounds (apply_from p w)
apply-InBounds waiting w e h = h
apply-InBounds stealing w e h = h
apply-InBounds ended w e h = h
apply-InBounds applying w e h = record {
  concurrency = h.concurrency;
  requests = omega (arith, h.requests);
  applied = h.applied;
  called = h.called;
  in_flight = let r = rw e at h.in_flight in omega arith;
}

pub turn-InBounds : (t : Turn) (w : Worker) → InBounds w → InBounds (turn t w)
unfolding turn check_throttle
turn-InBounds looks w h = look-InBounds w.phase w refl h
turn-InBounds (takes is_sentinel) w h = take-InBounds w.phase is_sentinel w refl h
turn-InBounds applies w h = apply-InBounds w.phase w refl h
turn-InBounds calls_back w h = record {
  concurrency = ground (arith, h.concurrency);
  requests = ground (arith, h.requests);
  applied = ground (arith, h.applied);
  called = ground (arith, h.called);
  in_flight = ground (arith, h.in_flight);
}
turn-InBounds (counts true) w h = record {
  concurrency = ground (arith, h.concurrency);
  requests = ground (arith, h.requests);
  applied = ground (arith, h.applied);
  called = ground (arith, h.called);
  in_flight = ground (arith, h.in_flight);
}
turn-InBounds (counts false) w h = record {
  concurrency = ground (arith, h.concurrency);
  requests = ground (arith, h.requests);
  applied = ground (arith, h.applied);
  called = ground (arith, h.called);
  in_flight = ground (arith, h.in_flight);
}
turn-InBounds gives_back w h = record {
  concurrency = ground (arith, h.concurrency);
  requests = ground (arith, h.requests);
  applied = ground (arith, h.applied, h.in_flight);
  called = ground (arith, h.called);
  in_flight = ground (arith, h.in_flight);
}
turn-InBounds (checks is_available) w h = record {
  concurrency = ground arith;
  requests = ground arith;
  applied = ground arith;
  called = ground arith;
  in_flight = ground arith;
}
turn-InBounds is_stopped w h = record {
  concurrency = h.concurrency;
  requests = h.requests;
  applied = h.applied;
  called = h.called;
  in_flight = h.in_flight;
}

turns-InBounds : (ts : List Turn) (w : Worker) → InBounds w → InBounds (turns ts w)
unfolding turns
turns-InBounds [] w h = h
turns-InBounds (t ∷ ts) w h = turns-InBounds ts (turn t w) (turn-InBounds t w h)

-- Whatever the threads of a new manager do, in any order, it never counts more requests in flight
-- than the configured concurrency, also with the one that it is about to add; the requests that it
-- counted are those in flight and those given back; those in flight are the one that it is
-- about to give to the pool, those in the pool and those whose callback runs; and the
-- callbacks that began are those that gave their request back and those that run.
pub new_worker-InBounds :
    (concurrency : ℕ) (ts : List Turn) → InBounds (turns ts (new_worker concurrency))
unfolding new_worker
new_worker-InBounds concurrency ts = turns-InBounds ts (new_worker concurrency) (record {
  concurrency = omega arith;
  requests = omega arith;
  applied = refl;
  called = refl;
  in_flight = refl;
})
