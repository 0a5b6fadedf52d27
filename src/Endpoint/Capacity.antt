-- ===== src/Endpoint/Capacity.antt =====
-- batchkit/endpoint_manager.py: the capacity of one manager. `look` is the wait for capacity in
-- `run`, `take` what `run` does with stolen work, and `check_throttle` one round of the health check.
-- `pool_callback` is three turns, for its sections under the lock: `begin_callback`,
-- `count_result` and `give_back`. The threads take turns in any order.
use batch_processing_kit.Prelude.{
  ℕ, ◌+◌, ◌-◌, Bool, true, false, List, [], ◌∷◌, if◌then◌else◌, ltb, leb,
}

-- Where the main loop of the manager is.
pub data Phase : Type 0 where
  waiting stealing applying ended : Phase

-- `in_pool` counts the requests that the pool has, `begun` the callbacks after their first section,
-- and `told` those after their second.
pub record Worker : Type 0 where
  pub phase : Phase
  pub config_concurrency : ℕ
  pub current_concurrency : ℕ
  pub current_requests : ℕ
  pub successive_failures : ℕ
  pub cnt_apply_async : ℕ
  pub cnt_pool_cb : ℕ
  pub cnt_pool_cb_rets : ℕ
  pub stop_requested : Bool
  pub in_pool : ℕ
  pub begun : ℕ
  pub told : ℕ

unfoldable pub new_worker : ℕ → Worker
new_worker concurrency = record {
  phase = waiting;
  config_concurrency = concurrency;
  current_concurrency = 0;
  current_requests = 0;
  successive_failures = 0;
  cnt_apply_async = 0;
  cnt_pool_cb = 0;
  cnt_pool_cb_rets = 0;
  stop_requested = false;
  in_pool = 0;
  begun = 0;
  told = 0;
}

-- One round of the wait; `waiting` stays, until the condition wakes it.
abbrev pub look_from : Phase → Worker → Worker
look_from waiting w =
    if w.stop_requested
    then record w { phase = ended }
    else if ltb w.current_requests w.current_concurrency
    then record w { phase = stealing }
    else w
look_from stealing w = w
look_from applying w = w
look_from ended w = w

-- What `steal_work` returned: the sentinel, or work that is counted.
abbrev pub take_from : Phase → Bool → Worker → Worker
take_from waiting is_sentinel w = w
take_from stealing true w = record w { phase = ended; stop_requested = true }
take_from stealing false w = record w {
  phase = applying;
  current_requests = w.current_requests + 1;
  cnt_apply_async = w.cnt_apply_async + 1;
}
take_from applying is_sentinel w = w
take_from ended is_sentinel w = w

-- The counted request goes to the pool.
abbrev pub apply_from : Phase → Worker → Worker
apply_from waiting w = w
apply_from stealing w = w
apply_from applying w = record w { phase = waiting; in_pool = w.in_pool + 1 }
apply_from ended w = w

-- The first section of `pool_callback`.
abbrev pub begin_callback : Worker → Worker
begin_callback w = record w { cnt_pool_cb = w.cnt_pool_cb + 1 }

-- Its second section, which depends on the result.
abbrev pub count_result : Bool → Worker → Worker
count_result true w = record w { successive_failures = 0 }
count_result false w = record w {
  successive_failures = w.successive_failures + 1;
  current_concurrency = if leb 5 (w.successive_failures + 1) then 0 else w.current_concurrency;
}

-- Its third section.
abbrev pub give_back : Worker → Worker
give_back w = record w {
  current_requests = w.current_requests - 1;
  cnt_pool_cb_rets = w.cnt_pool_cb_rets + 1;
}

unfoldable pub check_throttle : Bool → Worker → Worker
check_throttle is_available w =
    if w.stop_requested
    then w
    else record w { current_concurrency = if is_available then w.config_concurrency else 0 }

pub data Turn : Type 0 where
  looks : Turn
  takes : Bool → Turn
  applies : Turn
  calls_back : Turn
  counts : Bool → Turn
  gives_back : Turn
  checks : Bool → Turn
  is_stopped : Turn

-- The pool calls back once for each request that it has, and each callback takes its sections in
-- their order; several callbacks may be between two sections.
unfoldable pub turn : Turn → Worker → Worker
turn looks w = look_from w.phase w
turn (takes is_sentinel) w = take_from w.phase is_sentinel w
turn applies w = apply_from w.phase w
turn calls_back w =
    if ltb 0 w.in_pool
    then begin_callback (record w { in_pool = w.in_pool - 1; begun = w.begun + 1 })
    else w
turn (counts as_success) w =
    if ltb 0 w.begun
    then count_result as_success (record w { begun = w.begun - 1; told = w.told + 1 })
    else w
turn gives_back w = if ltb 0 w.told then give_back (record w { told = w.told - 1 }) else w
turn (checks is_available) w = check_throttle is_available w
turn is_stopped w = record w { stop_requested = true }

unfoldable pub turns : List Turn → Worker → Worker
unfolding turn
turns [] w = w
turns (t ∷ ts) w = turns ts (turn t w)
