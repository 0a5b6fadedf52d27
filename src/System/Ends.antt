-- ===== src/System/Ends.antt =====
-- The system under a cancellation, a stop and the start of a batch (batchkit/orchestrator.py).
use batch_processing_kit.Prelude.{
  ℕ, ◌≡◌, refl, ◌⊎◌, inl, inr, true, false, List, [], ◌∷◌, map, none, some, String, arith, ◌==◌,
  nat_eq, string_eq, All, All-map, Bool-cases, sym, ◌∙◌, subst,
}
use batch_processing_kit.Prelude.Dict.{contains, contains-add, add, lookup}
use batch_processing_kit.WorkItem.{WorkItemRequest}
use batch_processing_kit.WorkItem.Contents.{count_empty}
use batch_processing_kit.Endpoint.{Manager, ManagerName, manager_name_eq}
use batch_processing_kit.Orchestrator.{
  Orchestrator, BatchRequest, Result, returns, after, IsReturned, is_old, push_work,
}
use batch_processing_kit.Orchestrator.Invariant.{Inv}
use batch_processing_kit.Orchestrator.Reports.{is_ignored}
use batch_processing_kit.Orchestrator.Lifecycle.{
  IsIdle, IsIdle-Inv, Drained, canceled, cancel_running, cancel_other, canceled-IsIdle,
}
use batch_processing_kit.Orchestrator.Batches.{
  stop_manager, add_names, is_batch, cancel_running_batch, request_stop, start_batch, enqueue,
  enqueue_all, reset_results,
}
use batch_processing_kit.Orchestrator.Start.{
  opened, start_stopped, start_idle, start-Inv, stopping, stopped, request_stop_lem,
}
use batch_processing_kit.System.{System, IsWellNamed, names, Allowed, starts}
use batch_processing_kit.System.Held.{Held, Holds, SystemInv, live_mono}

abbrev pub Kept {κ} : {A : Type κ} → System → Result A → Type 0
Kept s r = SystemInv (record s { orchestrator = after r }) × IsReturned r

add_names_mono :
    (n : ManagerName) (ms : List Manager) (old : List ManagerName)
    → contains n old ≡ true
    → contains n (add_names ms old) ≡ true
unfolding add_names
add_names_mono n [] old h = h
add_names_mono n (m ∷ ms) old h =
    add_names_mono n ms (add m.name old) (ground (arith, contains-add m.name n old))

add_names-adds :
    (n : ManagerName) (ms : List Manager) (old : List ManagerName)
    → contains n (names ms) ≡ true
    → contains n (add_names ms old) ≡ true
unfolding add_names names contains
add_names-adds n [] old h = absurd (cc)
add_names-adds n (m ∷ ms) old h = elim (Bool-cases (m.name == n)) [
  | inl here ↦ add_names_mono n ms (add m.name old) (rw (contains-add m.name n old, here))
  | inr later ↦ add_names-adds n ms (add m.name old) (rw later at h)
]

stop_manager-IsWellNamed :
    (ms : List Manager) → All IsWellNamed ms → All IsWellNamed (map stop_manager ms)
stop_manager-IsWellNamed [] w = tt
stop_manager-IsWellNamed (m ∷ ms) w = (w.0, stop_manager-IsWellNamed ms w.1)

module _ (s : System) (v : SystemInv s) where
  -- Where everything outstanding is ignored, an idle or stopped state keeps the invariant.
  closed-System :
      (o' : Orchestrator)
      → Inv o'
      → All IsWellNamed o'.endpoint_managers
      → ((m : Manager) → is_ignored m s.orchestrator ≡ true → is_ignored m o' ≡ true)
      → ((e : Manager × String) → Holds s.orchestrator e.0 e.1 → is_ignored e.0 o' ≡ true)
      → (o'.stop_requested ≡ true) ⊎ IsIdle o'
      → SystemInv (record s { orchestrator = o' })
  closed-System o' i w mono closes quiet = record {
    inv = i;
    well_named = w;
    held = All-map each s.outstanding v.held;
    apart = λ f. omega (arith, live_mono s.orchestrator o' mono f s.outstanding, v.apart f);
    completed = λ h. quiet;
    unstarted = λ h. quiet;
  }
    where
      each : (e : Manager × String) → Held s.orchestrator e → Held o' e
      each (m, f) (inl h) = inl (mono m h)
      each (m, f) (inr h) = inl (closes (m, f) h)

  module _ (d : Orchestrator) (x : Drained s.orchestrator d) where
    canceled_old :
        (canceled 0 s.orchestrator d).old_managers
        ≡ add_names s.orchestrator.endpoint_managers s.orchestrator.old_managers
    canceled_old = rw x.only_queue

    canceled_stop : d.stop_requested ≡ s.orchestrator.stop_requested
    canceled_stop = rw x.only_queue

    canceled-System : (b : ℕ) → SystemInv (record s { orchestrator = canceled b s.orchestrator d })
    unfolding is_old
    canceled-System b =
        closed-System (canceled b s.orchestrator d)
          (IsIdle-Inv _ (canceled-IsIdle b s.orchestrator d x))
          (rw x.only_queue (stop_manager-IsWellNamed s.orchestrator.endpoint_managers v.well_named))
          (λ m h.
            rw (canceled_old, canceled_stop)
              (ground (
                arith,
                add_names_mono m.name s.orchestrator.endpoint_managers s.orchestrator.old_managers,
              )))
          (λ e h. rw canceled_old (
            ground (
              arith,
              add_names-adds e.0.name s.orchestrator.endpoint_managers s.orchestrator.old_managers
                  h.listed,
            )))
          (inr (canceled-IsIdle b s.orchestrator d x))

  -- Canceling any batch keeps the system's invariant, and raises nothing.
  pub cancels-System : (b : ℕ) → Kept s (cancel_running_batch b s.orchestrator)
  cancels-System b = elim (Bool-cases (is_batch s.orchestrator.on_batch_id b)) [
    | inl running ↦
        let (d, e, x) = cancel_running b s.orchestrator running v.inv in
        subst (Kept s) (sym e) (canceled-System d x b, tt)
    | inr other ↦ subst (Kept s) (sym (cancel_other b s.orchestrator other)) (v, tt)
  ]

  stopped-Inv :
      (d : Orchestrator) → Drained (stopping s.orchestrator) d → Inv (stopped s.orchestrator d)
  stopped-Inv d x = record {
    counted = rw x.only_queue (omega (arith, x.empty));
    owned = rw x.only_queue v.inv.owned;
    named = rw x.only_queue v.inv.named;
    once = λ f. rw x.only_queue (omega (arith, count_empty f d.file_queue x.empty, v.inv.once f));
  }

  -- A stop keeps the system's invariant, and raises nothing.
  pub stops-System : Kept s (request_stop s.orchestrator)
  unfolding is_old
  stops-System =
      let (d, e, x) = request_stop_lem s.orchestrator v.inv in
      let stop : (stopped s.orchestrator d).stop_requested ≡ true = rw x.only_queue in
      subst (Kept s) (sym e) (
        closed-System (stopped s.orchestrator d) (stopped-Inv d x)
            (rw x.only_queue
              (stop_manager-IsWellNamed s.orchestrator.endpoint_managers v.well_named))
            (λ m h. rw stop (ground arith)) (λ k h. rw stop (ground arith)) (inl stop),
        tt,
      )

-- The batch's work changes only the queue and the results.
record Filled (o o' : Orchestrator) : Type 0 where
  old : o'.old_managers ≡ o.old_managers
  stop : o'.stop_requested ≡ o.stop_requested
  managers : o'.endpoint_managers ≡ o.endpoint_managers
  completion : o'.batch_completion ≡ o.batch_completion
  batch : o'.on_batch_id ≡ o.on_batch_id

enqueue_all-Filled : (ws : List WorkItemRequest) (o : Orchestrator) → Filled o (enqueue_all ws o)
unfolding enqueue_all enqueue push_work
enqueue_all-Filled [] o = record {
  old = refl;
  stop = refl;
  managers = refl;
  completion = refl;
  batch = refl;
}
enqueue_all-Filled (w ∷ ws) o =
    let h = enqueue_all-Filled ws (enqueue w o) in
    record {
      old = h.old;
      stop = h.stop;
      managers = h.managers;
      completion = h.completion;
      batch = h.batch;
    }

module _ (s : System) (v : SystemInv s) (r : BatchRequest) (a : Allowed (starts r) s) where
  abbrev begun : Orchestrator
  begun = enqueue_all r.work_items (opened r s.orchestrator)

  begun-Filled : Filled (opened r s.orchestrator) begun
  begun-Filled = enqueue_all-Filled r.work_items (opened r s.orchestrator)

  ready : s.orchestrator.stop_requested ≡ false → IsIdle s.orchestrator
  ready alive = pick (first a.0)
    where
      first :
          (s.orchestrator.batch_completion ≡ true) ⊎ (s.orchestrator.on_batch_id ≡ none)
          → (s.orchestrator.stop_requested ≡ true) ⊎ IsIdle s.orchestrator
      first (inl done) = v.completed done
      first (inr none_yet) = v.unstarted none_yet

      pick : (s.orchestrator.stop_requested ≡ true) ⊎ IsIdle s.orchestrator → IsIdle s.orchestrator
      pick (inl stop) = absurd (cc)
      pick (inr idle) = idle

  begun-ignored : (m : Manager) → is_ignored m begun ≡ is_ignored m s.orchestrator
  unfolding is_old reset_results
  begun-ignored m = rw (begun-Filled.old, begun-Filled.stop)

  begun-Held : IsIdle s.orchestrator → (e : Manager × String) → Held s.orchestrator e → Held begun e
  unfolding lookup
  begun-Held i (m, f) (inl h) = inl (begun-ignored m ∙ h)
  begun-Held i (m, f) (inr h) = absurd (let own = rw i.owner at h.owner in cc)

  begun-System : IsIdle s.orchestrator → SystemInv (record s { orchestrator = begun })
  unfolding reset_results
  begun-System i = record {
    inv = start-Inv r s.orchestrator i a.1;
    well_named = rw begun-Filled.managers v.well_named;
    held = All-map (begun-Held i) s.outstanding v.held;
    apart = λ f. omega (
      arith,
      live_mono s.orchestrator begun (λ m h. begun-ignored m ∙ h) f s.outstanding,
      v.apart f,
    );
    completed = λ h. absurd (let e = begun-Filled.completion in cc);
    unstarted = λ h. absurd (let e = begun-Filled.batch in cc);
  }

  -- The start of a batch, where it is allowed, keeps the system's invariant and raises nothing:
  -- both of its assertions hold.
  pub starts-System : Kept s (start_batch (some r) s.orchestrator)
  starts-System = elim (Bool-cases s.orchestrator.stop_requested) [
    | inl stop ↦ subst (Kept s) (sym (start_stopped r s.orchestrator stop)) (v, tt)
    | inr alive ↦
        let i = ready alive in
        subst (Kept s) (sym (start_idle r s.orchestrator alive i)) (begun-System i, tt)
  ]

-- From a state with the invariant, canceling the batch that runs returns true and marks it
-- complete. Nothing stays queued or in
-- progress, and every manager listed at that time is closed: it will be handed no work, and its
-- reports change a counter only.
pub cancel_running-closes :
    (b : ℕ) (o : Orchestrator) (m : Manager)
    → Inv o
    → is_batch o.on_batch_id b ≡ true
    → contains m.name (names o.endpoint_managers) ≡ true
    → (cancel_running_batch b o ≡ returns true (after (cancel_running_batch b o)))
      × IsIdle (after (cancel_running_batch b o))
      × ((after (cancel_running_batch b o)).batch_completion ≡ true)
      × (is_ignored m (after (cancel_running_batch b o)) ≡ true)
unfolding is_old
cancel_running-closes b o m v running listed =
    let (d, e, x) = cancel_running b o running v in
    let old : (canceled b o d).old_managers ≡ add_names o.endpoint_managers o.old_managers =
      rw x.only_queue in
    rw e (
      refl,
      canceled-IsIdle b o d x,
      refl,
      rw old (ground (arith, add_names-adds m.name o.endpoint_managers o.old_managers listed)),
    )
