-- ===== src/System/Steals.antt =====
-- The system under a steal (`run` of batchkit/endpoint_manager.py).
use batch_processing_kit.Prelude.{
  ◌≤◌, ◌≡◌, refl, ◌⊎◌, inl, inr, true, false, List, [], ◌∷◌, Option, some, String, if◌then◌else◌,
  arith, ◌==◌, string_eq, All, All-map, Bool-cases, sym, ◌∙◌, subst,
}
use batch_processing_kit.Prelude.Dict.{contains, lookup, lookup-contains, lookup-insert, keys}
use batch_processing_kit.WorkItem.{WorkItemRequest}
use batch_processing_kit.Endpoint.{ManagerName, Manager, manager_name_eq}
use batch_processing_kit.Orchestrator.{
  Orchestrator, Result, IsReturned, is_old, assign, push_work, steal_work,
}
use batch_processing_kit.Orchestrator.Invariant.{Inv, Pops}
use batch_processing_kit.Orchestrator.Reports.{is_ignored}
use batch_processing_kit.Orchestrator.Lifecycle.{IsIdle}
use batch_processing_kit.Orchestrator.Steal.{
  Stolen, refused, asleep, unqualified, assigned, steal_work-Stolen, unqualified-Inv, assigned-Inv,
  not-in_progress,
}
use batch_processing_kit.System.{
  System, IsWellNamed, names, hand_out, stop_named, stop_self, Allowed, steals,
}
use batch_processing_kit.System.Held.{Held, SystemInv, live, live_mono, live-zero}

-- The parts of a state on which outstanding work depends.
pub record Unmoved (o o' : Orchestrator) : Type 0 where
  pub old : o'.old_managers ≡ o.old_managers
  pub stop : o'.stop_requested ≡ o.stop_requested
  pub managers : o'.endpoint_managers ≡ o.endpoint_managers
  pub completion : o'.batch_completion ≡ o.batch_completion
  pub batch : o'.on_batch_id ≡ o.on_batch_id

module _ {o o' : Orchestrator} (u : Unmoved o o') where
  pub Unmoved-ignored : (m : Manager) → is_ignored m o' ≡ is_ignored m o
  unfolding is_old
  Unmoved-ignored m = rw (u.old, u.stop)

  pub Unmoved-Held :
      o'.in_progress_owner ≡ o.in_progress_owner → (e : Manager × String) → Held o e → Held o' e
  Unmoved-Held same (m, f) (inl h) = inl (Unmoved-ignored m ∙ h)
  Unmoved-Held same (m, f) (inr h) = inr (record {
    owner = rw same h.owner;
    listed = rw u.managers h.listed;
    well_named = h.well_named;
  })

-- The new invariants that a move of the queue has to show, for the rest is as it was.
Unmoved-System :
    (s : System) (o' : Orchestrator)
    → Unmoved s.orchestrator o'
    → o'.in_progress_owner ≡ s.orchestrator.in_progress_owner
    → ¬ ((s.orchestrator.stop_requested ≡ true) ⊎ IsIdle s.orchestrator)
    → Inv o'
    → SystemInv s
    → SystemInv (record s { orchestrator = o' })
Unmoved-System s o' u same busy i v = record {
  inv = i;
  well_named = rw u.managers v.well_named;
  held = All-map (Unmoved-Held u same) s.outstanding v.held;
  apart = λ f. omega (
    arith,
    live_mono s.orchestrator o' (λ m h. Unmoved-ignored u m ∙ h) f s.outstanding,
    v.apart f,
  );
  completed = λ h. absurd (busy (v.completed (sym u.completion ∙ h)));
  unstarted = λ h. absurd (busy (v.unstarted (sym u.batch ∙ h)));
}

-- An item that is taken shows that the batch is not complete.
busy_not-IsIdle :
    (o : Orchestrator) (m : Manager) {w : WorkItemRequest} {popped : Orchestrator}
    → Pops o w popped
    → is_ignored m o ≡ false
    → ¬ ((o.stop_requested ≡ true) ⊎ IsIdle o)
busy_not-IsIdle o m p alive (inl stops) = ground arith
busy_not-IsIdle o m p alive (inr idle) = absurd (omega (arith, p.size, idle.size))

pop-Unmoved :
    {o : Orchestrator} {w : WorkItemRequest} {popped : Orchestrator}
    → Pops o w popped
    → Unmoved o popped
pop-Unmoved p = record {
  old = rw p.state;
  stop = rw p.state;
  managers = rw p.state;
  completion = rw p.state;
  batch = rw p.state;
}

push_work-Unmoved :
    {o : Orchestrator} (w : WorkItemRequest) (popped : Orchestrator)
    → Unmoved o popped
    → Unmoved o (push_work w popped)
unfolding push_work
push_work-Unmoved w popped u = record {
  old = u.old;
  stop = u.stop;
  managers = u.managers;
  completion = u.completion;
  batch = u.batch;
}

push_work-owner :
    (w : WorkItemRequest) (o : Orchestrator)
    → (push_work w o).in_progress_owner ≡ o.in_progress_owner
unfolding push_work
push_work-owner w o = refl

module _ (s : System) (m : Manager) (w : WorkItemRequest) (popped : Orchestrator) (v : SystemInv s)
    (p : Pops s.orchestrator w popped) (alive : is_ignored m s.orchestrator ≡ false)
    (allowed : Allowed (steals m) s) where
  assign-Unmoved : Unmoved s.orchestrator (assign w m popped)
  unfolding assign
  assign-Unmoved =
      let u = pop-Unmoved p in
      record {
        old = u.old;
        stop = u.stop;
        managers = u.managers;
        completion = u.completion;
        batch = u.batch;
      }

  -- The file that is taken has no owner yet.
  unowned : contains w.filepath (keys s.orchestrator.in_progress_owner) ≡ false
  unowned = rw v.inv.owned (
      subst (λ (x : Orchestrator). contains w.filepath (keys x.in_progress) ≡ false) p.state
        (not-in_progress p v.inv))

  owner_after :
      (f : String)
      → lookup f (assign w m popped).in_progress_owner
        ≡ (if w.filepath == f then some m else lookup f s.orchestrator.in_progress_owner)
  unfolding assign
  owner_after f = rw p.state (lookup-insert w.filepath f m s.orchestrator.in_progress_owner)

  assigned-Held : (e : Manager × String) → Held s.orchestrator e → Held (assign w m popped) e
  assigned-Held (k, f) (inl h) = inl (Unmoved-ignored assign-Unmoved k ∙ h)
  assigned-Held (k, f) (inr h) = inr (record {
    owner = ground (
      arith,
      owner_after f,
      unowned,
      h.owner,
      lookup-contains f s.orchestrator.in_progress_owner k h.owner,
      string_eq.beq_iff w.filepath f,
    );
    listed = rw assign-Unmoved.managers h.listed;
    well_named = h.well_named;
  })

  newly-Held : Held (assign w m popped) (m, w.filepath)
  newly-Held = inr (record {
    owner = ground (arith, owner_after w.filepath, string_eq.beq_iff w.filepath w.filepath);
    listed = rw assign-Unmoved.managers (now_listed allowed.1);
    well_named = allowed.0;
  })
    where
      now_listed :
          (is_old m s.orchestrator ≡ true)
            ⊎ (contains m.name (names s.orchestrator.endpoint_managers) ≡ true)
          → contains m.name (names s.orchestrator.endpoint_managers) ≡ true
      now_listed (inl old) = ground arith
      now_listed (inr listed) = listed

  taken-Apart : (f : String) → live f (assign w m popped) ((m, w.filepath) ∷ s.outstanding) ≤ 1
  unfolding live
  taken-Apart f = ground (
    arith,
    live_mono s.orchestrator (assign w m popped) (λ k h. Unmoved-ignored assign-Unmoved k ∙ h) f
        s.outstanding,
    v.apart f,
    live-zero w.filepath s.orchestrator s.outstanding unowned v.held,
    string_eq.beq_iff w.filepath f,
  )

  assigned-System :
      SystemInv
        (record { orchestrator = assign w m popped; outstanding = (m, w.filepath) ∷ s.outstanding })
  assigned-System = record {
    inv = assigned-Inv p m v.inv;
    well_named = rw assign-Unmoved.managers v.well_named;
    held = (newly-Held, All-map assigned-Held s.outstanding v.held);
    apart = taken-Apart;
    completed = λ h. absurd (busy (v.completed (sym assign-Unmoved.completion ∙ h)));
    unstarted = λ h. absurd (busy (v.unstarted (sym assign-Unmoved.batch ∙ h)));
  }
    where
      busy : ¬ ((s.orchestrator.stop_requested ≡ true) ⊎ IsIdle s.orchestrator)
      busy = busy_not-IsIdle s.orchestrator m p alive

  -- A manager that takes work on a file named as the sentinel drops it.
  dropped-System : SystemInv (record s { orchestrator = assign w m popped })
  unfolding live
  dropped-System =
      let a = assigned-System in
      record {
        inv = a.inv;
        well_named = a.well_named;
        held = a.held.1;
        apart = λ f. omega (arith, a.apart f);
        completed = a.completed;
        unstarted = a.unstarted;
      }

names-stop_named : (n : ManagerName) (ms : List Manager) → names (stop_named n ms) ≡ names ms
unfolding names stop_named
names-stop_named n [] = refl
names-stop_named n (m ∷ ms) = ground (arith, names-stop_named n ms)

stop_named-IsWellNamed :
    (n : ManagerName) (ms : List Manager) → All IsWellNamed ms → All IsWellNamed (stop_named n ms)
unfolding stop_named
stop_named-IsWellNamed n [] w = tt
stop_named-IsWellNamed n (m ∷ ms) w = (ground (arith, w.0), stop_named-IsWellNamed n ms w.1)

-- A manager that stops itself changes its own flag only.
stop_self-System :
    (m : Manager) (s : System)
    → SystemInv s
    → SystemInv (record s { orchestrator = stop_self m s.orchestrator })
unfolding is_old
stop_self-System m s v = record {
  inv = record {
    counted = v.inv.counted;
    owned = v.inv.owned;
    named = v.inv.named;
    once = v.inv.once;
  };
  well_named = stop_named-IsWellNamed m.name s.orchestrator.endpoint_managers v.well_named;
  held = All-map each s.outstanding v.held;
  apart = λ f. omega (
    arith,
    live_mono s.orchestrator (stop_self m s.orchestrator) (λ k h. h) f s.outstanding,
    v.apart f,
  );
  completed = λ h. quiet (v.completed h);
  unstarted = λ h. quiet (v.unstarted h);
}
  where
    each : (e : Manager × String) → Held s.orchestrator e → Held (stop_self m s.orchestrator) e
    each (k, f) (inl h) = inl h
    each (k, f) (inr h) = inr (record {
      owner = h.owner;
      listed = rw (names-stop_named m.name s.orchestrator.endpoint_managers) h.listed;
      well_named = h.well_named;
    })

    quiet :
        (s.orchestrator.stop_requested ≡ true) ⊎ IsIdle s.orchestrator
        → (s.orchestrator.stop_requested ≡ true) ⊎ IsIdle (stop_self m s.orchestrator)
    quiet (inl stops) = inl stops
    quiet (inr i) = inr (record { size = i.size; queue = i.queue; work = i.work; owner = i.owner })

hand_out-System :
    (s : System) (m : Manager) (r : Result (Option WorkItemRequest))
    → SystemInv s
    → Allowed (steals m) s
    → Stolen s.orchestrator m r
    → SystemInv (hand_out m s r) × IsReturned r
unfolding hand_out
hand_out-System s m r v a (refused stops) = (stop_self-System m s v, tt)
hand_out-System s m r v a (asleep alive idle) = (v, tt)
hand_out-System s m r v a (unqualified w popped alive p wrong) = (
  stop_self-System m (record s { orchestrator = push_work w popped })
      (Unmoved-System s (push_work w popped) (push_work-Unmoved w popped (pop-Unmoved p))
        (push_work-owner w popped ∙ rw p.state) (busy_not-IsIdle s.orchestrator m p alive)
        (unqualified-Inv p v.inv) v),
  tt,
)
hand_out-System s m r v a (assigned w popped alive p fits) =
    elim (Bool-cases (w.filepath == "STOP")) [
      | inl stop ↦ rw stop (stop_self-System m _ (dropped-System s m w popped v p alive a), tt)
      | inr work ↦ rw work (assigned-System s m w popped v p alive a, tt)
    ]

-- A steal by a manager that was created keeps the system's invariant, and raises nothing.
pub steals-System :
    (s : System) (m : Manager)
    → SystemInv s
    → Allowed (steals m) s
    → SystemInv (hand_out m s (steal_work m s.orchestrator))
      × IsReturned (steal_work m s.orchestrator)
steals-System s m v a =
    hand_out-System s m (steal_work m s.orchestrator) v a (steal_work-Stolen s.orchestrator m v.inv)
