-- ===== src/System/Reports.antt =====
-- The system under a report (`pool_callback` of batchkit/endpoint_manager.py).
use batch_processing_kit.Prelude.{
  ℕ, ◌≡◌, refl, ◌⊎◌, inl, inr, true, false, not, ◌&&◌, ◌||◌, List, [], ◌∷◌, some, String, arith,
  length, ◌==◌, nat_eq, string_eq, All, All-map, All-map₂, Bool-cases, sym, ◌∙◌, subst,
}
use batch_processing_kit.Prelude.Dict.{
  contains, lookup, lookup-contains, contains-lookup, lookup-erase_ne, erase, keys,
}
use batch_processing_kit.WorkItem.{WorkItemRequest, WorkItemResult}
use batch_processing_kit.Endpoint.{Manager, manager_name_eq}
use batch_processing_kit.Orchestrator.{
  Orchestrator, Result, returns, after, IsReturned, is_old, push_work, merge, merge_results,
  may_retry, check_completion, notify_work_success, notify_work_failure,
}
use batch_processing_kit.Orchestrator.Invariant.{Inv}
use batch_processing_kit.Orchestrator.Reports.{
  is_ignored, settle, succeeded, failed, retried, success_ignored, failure_ignored, success_settles,
  failure_settles,
}
use batch_processing_kit.Orchestrator.Settled.{notify_work_success-Inv, notify_work_failure-Inv}
use batch_processing_kit.Orchestrator.Lifecycle.{IsIdle}
use batch_processing_kit.System.{System, deliver, get_elem?, remove_at}
use batch_processing_kit.System.Held.{
  Held, SystemInv, live, live_mono, live-zero_apart, live-remove_at, All-remove_at, All-get_elem?,
}
use batch_processing_kit.System.Steals.{Unmoved, Unmoved-ignored, Unmoved-Held}

-- A state in which the work on one file was settled, and that is otherwise as it was.
record Settles (o : Orchestrator) (f : String) (x : Orchestrator) : Type 0 where
  unmoved : Unmoved o x
  work : x.in_progress ≡ erase f o.in_progress
  owner : x.in_progress_owner ≡ erase f o.in_progress_owner

keys-nil :
    {A B : Type 0} (d : List (String × A)) (e : List (String × B))
    → keys d ≡ keys e
    → length e ≡ 0
    → d ≡ []
keys-nil [] e h k = refl
keys-nil (x ∷ d) [] h k = absurd (cc)
keys-nil (x ∷ d) (y ∷ e) h k = absurd (omega arith)

length-nil : {A : Type 0} (d : List A) → length d ≡ 0 → d ≡ []
length-nil [] h = refl
length-nil (x ∷ d) h = absurd (omega arith)

-- The test of `check_completion` holds of an idle state only.
done-IsIdle :
    (x : Orchestrator)
    → Inv x
    → (x.file_queue_size == 0 && length x.in_progress == 0) ≡ true
    → IsIdle x
done-IsIdle x i done =
    let none_busy : length x.in_progress ≡ 0 = ground arith in
    let none_queued : x.file_queue_size ≡ 0 = ground arith in
    record {
      size = none_queued;
      queue = omega (arith, i.counted);
      work = length-nil x.in_progress none_busy;
      owner = keys-nil x.in_progress_owner x.in_progress i.owned none_busy;
    }

module _ (s : System) (n : ℕ) (m : Manager) (f : String) (v : SystemInv s)
    (found : get_elem? s.outstanding n ≡ some (m, f)) where
  abbrev rest : List (Manager × String)
  rest = remove_at s.outstanding n

  ignored-System :
      (o' : Orchestrator)
      → Unmoved s.orchestrator o'
      → o'.in_progress_owner ≡ s.orchestrator.in_progress_owner
      → (IsIdle s.orchestrator → IsIdle o')
      → Inv o'
      → SystemInv (record { orchestrator = o'; outstanding = rest })
  ignored-System o' u same idle i = record {
    inv = i;
    well_named = rw u.managers v.well_named;
    held =
        All-map (Unmoved-Held u same) rest
          (All-remove_at (Held s.orchestrator) s.outstanding n v.held);
    apart = λ g. omega (
      arith,
      live_mono s.orchestrator o' (λ k h. Unmoved-ignored u k ∙ h) g rest,
      v.apart g,
      live-remove_at g s.orchestrator s.outstanding n m f found,
    );
    completed = λ h. still (v.completed (sym u.completion ∙ h));
    unstarted = λ h. still (v.unstarted (sym u.batch ∙ h));
  }
    where
      still :
          (s.orchestrator.stop_requested ≡ true) ⊎ IsIdle s.orchestrator
          → (o'.stop_requested ≡ true) ⊎ IsIdle o'
      still (inl stop) = inl (u.stop ∙ stop)
      still (inr quiet) = inr (idle quiet)

  module _ (alive : is_ignored m s.orchestrator ≡ false) where
    owned_by : lookup f s.orchestrator.in_progress_owner ≡ some m
    owned_by = held_case (All-get_elem? (Held s.orchestrator) s.outstanding n (m, f) v.held found)
      where
        held_case : Held s.orchestrator (m, f) → lookup f s.orchestrator.in_progress_owner ≡ some m
        held_case (inl ignored) = absurd (cc)
        held_case (inr holds) = holds.owner

    busy : contains f (keys s.orchestrator.in_progress) ≡ true
    busy = rw (← v.inv.owned) (lookup-contains f s.orchestrator.in_progress_owner m owned_by)

    not-IsIdle : ¬ ((s.orchestrator.stop_requested ≡ true) ⊎ IsIdle s.orchestrator)
    unfolding contains
    not-IsIdle (inl stop) = ground arith
    not-IsIdle (inr idle) = absurd (let b = rw idle.work at busy in cc)

    alone : live f s.orchestrator rest ≡ 0
    alone = ground (
      arith,
      live-remove_at f s.orchestrator s.outstanding n m f found,
      v.apart f,
      string_eq.beq_iff f f,
    )

    others-Held : (x : Orchestrator) → Settles s.orchestrator f x → All (Held x) rest
    others-Held x t =
        All-map₂ (λ e h a. moved e h a) rest
          (All-remove_at (Held s.orchestrator) s.outstanding n v.held)
          (live-zero_apart s.orchestrator f rest alone)
      where
        moved :
            (e : Manager × String)
            → Held s.orchestrator e
            → (is_ignored e.0 s.orchestrator || not (e.1 == f)) ≡ true
            → Held x e
        moved (k, g) (inl h) a = inl (Unmoved-ignored t.unmoved k ∙ h)
        moved (k, g) (inr h) a = elim (Bool-cases (is_ignored k s.orchestrator)) [
          | inl ignored ↦ inl (Unmoved-ignored t.unmoved k ∙ ignored)
          | inr counts ↦ inr (record {
            owner = rw t.owner (
                lookup-erase_ne f g s.orchestrator.in_progress_owner
                  (ground (arith, string_eq.beq_iff f g, string_eq.beq_iff g f))
                ∙ h.owner);
            listed = rw t.unmoved.managers h.listed;
            well_named = h.well_named;
          })
        ]

    settled-System :
        (x : Orchestrator)
        → Settles s.orchestrator f x
        → Inv (check_completion x)
        → SystemInv (record { orchestrator = check_completion x; outstanding = rest })
    unfolding check_completion is_old
    settled-System x t i = record {
      inv = i;
      well_named = rw t.unmoved.managers v.well_named;
      held = All-map (λ e. same e) rest (others-Held x t);
      apart = λ g. omega (
        arith,
        live_mono s.orchestrator (check_completion x) (λ k h. Unmoved-ignored t.unmoved k ∙ h) g
            rest,
        v.apart g,
        live-remove_at g s.orchestrator s.outstanding n m f found,
      );
      completed = λ h. elim (Bool-cases (x.file_queue_size == 0 && length x.in_progress == 0)) [
        | inl done ↦ inr (done-IsIdle (check_completion x) i done)
        | inr more ↦ absurd (not-IsIdle (v.completed (sym t.unmoved.completion ∙ (rw more at h))))
      ];
      unstarted = λ h. absurd (not-IsIdle (v.unstarted (sym t.unmoved.batch ∙ h)));
    }
      where
        same : (e : Manager × String) → Held x e → Held (check_completion x) e
        same (k, g) (inl h) = inl h
        same (k, g) (inr h) =
            inr (record { owner = h.owner; listed = h.listed; well_named = h.well_named })

    success-Settles :
        (r : WorkItemResult)
        → Settles s.orchestrator f (merge_results f r (settle f (succeeded s.orchestrator)))
    unfolding merge_results
    success-Settles r = record {
      unmoved = record {
        old = refl;
        stop = refl;
        managers = refl;
        completion = refl;
        batch = refl;
      };
      work = refl;
      owner = refl;
    }

    failure-Settles :
        (r : WorkItemResult) (w : WorkItemRequest)
        → Settles s.orchestrator f (settle f (retried f r s.orchestrator w))
    unfolding merge_results push_work
    failure-Settles r w = elim (Bool-cases (may_retry r (merge f r s.orchestrator))) [
      | inl again ↦ rw again (record {
        unmoved = record {
          old = refl;
          stop = refl;
          managers = refl;
          completion = refl;
          batch = refl;
        };
        work = refl;
        owner = refl;
      })
      | inr given_up ↦ rw given_up (record {
        unmoved = record {
          old = refl;
          stop = refl;
          managers = refl;
          completion = refl;
          batch = refl;
        };
        work = refl;
        owner = refl;
      })
    ]

    live_success :
        (r : WorkItemResult)
        → SystemInv (record {
          orchestrator = after (notify_work_success f m r s.orchestrator);
          outstanding = rest;
        })
          × IsReturned (notify_work_success f m r s.orchestrator)
    live_success r =
        let i = notify_work_success-Inv f m r s.orchestrator v.inv in
        let e = success_settles f m r s.orchestrator alive busy v.inv.owned in
        rw e (settled-System _ (success-Settles r) (rw e at i), tt)

    live_failure :
        (r : WorkItemResult)
        → SystemInv (record {
          orchestrator = after (notify_work_failure f m r s.orchestrator);
          outstanding = rest;
        })
          × IsReturned (notify_work_failure f m r s.orchestrator)
    live_failure r =
        let (w, taken) = contains-lookup f s.orchestrator.in_progress busy in
        let i = notify_work_failure-Inv f m r s.orchestrator v.inv in
        let e = failure_settles f m r s.orchestrator alive busy v.inv.owned w taken in
        rw e (settled-System _ (failure-Settles r w) (rw e at i), tt)

  counted-IsIdle :
      IsIdle s.orchestrator → IsIdle (succeeded s.orchestrator) × IsIdle (failed s.orchestrator)
  counted-IsIdle i = (
    record { size = i.size; queue = i.queue; work = i.work; owner = i.owner },
    record { size = i.size; queue = i.queue; work = i.work; owner = i.owner },
  )

  abbrev Reported : Result (Unit {0}) → Type 0
  Reported r = SystemInv (record { orchestrator = after r; outstanding = rest }) × IsReturned r

  ignored_report :
      (x : Orchestrator)
      → Unmoved s.orchestrator x
      → x.in_progress_owner ≡ s.orchestrator.in_progress_owner
      → (IsIdle s.orchestrator → IsIdle x)
      → (r : Result (Unit {0})) → r ≡ returns tt x
      → Inv (after r)
      → Reported r
  ignored_report x u same idle r e i =
      subst Reported (sym e) (ignored-System x u same idle (subst (λ y. Inv (after y)) e i), tt)

  success-Reported : (r : WorkItemResult) → Reported (notify_work_success f m r s.orchestrator)
  success-Reported r = elim (Bool-cases (is_ignored m s.orchestrator)) [
    | inl ignored ↦
        ignored_report (succeeded s.orchestrator)
          (record { old = refl; stop = refl; managers = refl; completion = refl; batch = refl })
          refl (λ i. (counted-IsIdle i).0) _ (success_ignored f m r s.orchestrator ignored)
          (notify_work_success-Inv f m r s.orchestrator v.inv)
    | inr alive ↦ live_success alive r
  ]

  failure-Reported : (r : WorkItemResult) → Reported (notify_work_failure f m r s.orchestrator)
  failure-Reported r = elim (Bool-cases (is_ignored m s.orchestrator)) [
    | inl ignored ↦
        ignored_report (failed s.orchestrator)
          (record { old = refl; stop = refl; managers = refl; completion = refl; batch = refl })
          refl (λ i. (counted-IsIdle i).1) _ (failure_ignored f m r s.orchestrator ignored)
          (notify_work_failure-Inv f m r s.orchestrator v.inv)
    | inr alive ↦ live_failure alive r
  ]

  -- The report of outstanding work keeps the system's invariant, and raises nothing.
  pub deliver-Reported : (r : WorkItemResult) → Reported (deliver m f r s.orchestrator)
  unfolding deliver
  deliver-Reported r = elim (Bool-cases (r.passed || r.cached)) [
    | inl passed ↦ rw passed (success-Reported r)
    | inr not_passed ↦ rw not_passed (failure-Reported r)
  ]
