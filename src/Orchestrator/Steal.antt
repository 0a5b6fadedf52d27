-- ===== src/Orchestrator/Steal.antt =====
-- batchkit/orchestrator.py: `steal_work` on every branch, and the pending work after it.
use batch_processing_kit.Prelude.{
  ◌+◌, ◌≡◌, refl, inl, inr, true, false, ◌||◌, Option, none, some, String, if◌then◌else◌, arith,
  ltb, ◌==◌, nat_eq, string_eq, Bool-cases, ltb→lt, ap, sym, ◌∙◌,
}
use batch_processing_kit.Prelude.Dict.{
  contains, keys, add, contains-count, keys-insert, count-add, All-insert,
}
use batch_processing_kit.WorkItem.{WorkItemRequest, sentinel, qsize}
use batch_processing_kit.Endpoint.{Manager}
use batch_processing_kit.Orchestrator.{
  Orchestrator, Result, returns, after, ◌>>=◌, pop_work, push_work, assign, is_old, mismatched,
  steal_work, take_work,
}
use batch_processing_kit.Orchestrator.Invariant.{
  Inv, Pops, pop_work-Pops, pending, push_work-pending, push_work-counted,
}

-- The branches of `steal_work`, with the tests that lead to each.
pub data Stolen (o : Orchestrator) (m : Manager) : Result (Option WorkItemRequest) → Type 0 where
  refused : (is_old m o || o.stop_requested) ≡ true → Stolen o m (returns (some sentinel) o)
  asleep :
      (is_old m o || o.stop_requested) ≡ false → o.file_queue_size ≡ 0 → Stolen o m (returns none o)
  unqualified :
      (w : WorkItemRequest) (popped : Orchestrator)
      → (is_old m o || o.stop_requested) ≡ false
      → Pops o w popped
      → mismatched w.language m ≡ true
      → Stolen o m (returns (some sentinel) (push_work w popped))
  assigned :
      (w : WorkItemRequest) (popped : Orchestrator)
      → (is_old m o || o.stop_requested) ≡ false
      → Pops o w popped
      → mismatched w.language m ≡ false
      → Stolen o m (returns (some w) (assign w m popped))

take_Stolen :
    (o : Orchestrator) (m : Manager) (w : WorkItemRequest) (popped : Orchestrator)
    → (is_old m o || o.stop_requested) ≡ false
    → ltb 0 o.file_queue_size ≡ true
    → pop_work o ≡ returns w popped
    → Pops o w popped
    → Stolen o m (steal_work m o)
unfolding steal_work
take_Stolen o m w popped live more e p = elim (Bool-cases (mismatched w.language m)) [
  | inl wrong ↦ rw (live, more, e, take_work, ◌>>=◌, wrong) (unqualified w popped live p wrong)
  | inr fits ↦ rw (live, more, e, take_work, ◌>>=◌, fits) (assigned w popped live p fits)
]

-- From a state with the invariant, one round of `steal_work` raises nothing and takes the branch
-- that the retired managers, the stop, the queue and the languages select: it refuses, sleeps,
-- puts an item of another language back, or assigns the item that it took out.
pub steal_work-Stolen : (o : Orchestrator) (m : Manager) → Inv o → Stolen o m (steal_work m o)
unfolding steal_work
steal_work-Stolen o m v = elim (Bool-cases (is_old m o || o.stop_requested)) [
  | inl stops ↦ rw (stops, steal_work) (refused stops)
  | inr live ↦ elim (Bool-cases (ltb 0 o.file_queue_size)) [
    | inl more ↦
        let (w, popped, e, p) = pop_work-Pops o v.counted (ltb→lt _ _ more) in
        take_Stolen o m w popped live more e p
    | inr idle ↦ rw (live, idle, steal_work) (asleep live (ground arith))
  ]
]

module _ {o : Orchestrator} {w : WorkItemRequest} {popped : Orchestrator}
    (p : Pops o w popped) where
  -- Taking an item out of the queue loses it, until it is put somewhere.
  popped-pending :
      (f : String) → (if w.filepath == f then 1 else 0) + pending f popped ≡ pending f o
  popped-pending f = rw p.state (omega (arith, p.contents f))

  pub popped-counted : popped.file_queue_size ≡ qsize popped.file_queue
  popped-counted = rw p.state (omega (arith, p.size))

  unqualified-pending : (f : String) → pending f (push_work w popped) ≡ pending f o
  unqualified-pending f = omega (arith, push_work-pending f w popped, popped-pending f)

  pub unqualified-Inv : Inv o → Inv (push_work w popped)
  unfolding push_work
  unqualified-Inv v = record {
    counted = push_work-counted w popped popped-counted;
    owned = rw p.state v.owned;
    named = rw p.state v.named;
    once = λ f. omega (arith, unqualified-pending f, v.once f);
  }

  -- The item taken was queued, so nobody else is at work on its file.
  pub not-in_progress : Inv o → contains w.filepath (keys popped.in_progress) ≡ false
  not-in_progress v = elim (Bool-cases (contains w.filepath (keys popped.in_progress))) [
    | inl busy ↦ absurd (
        ground (
          arith,
          contains-count w.filepath (keys popped.in_progress) busy,
          popped-pending w.filepath,
          v.once w.filepath,
          string_eq.beq_iff w.filepath w.filepath,
        ))
    | inr free ↦ free
  ]

  assigned-pending :
      (m : Manager) (f : String) → Inv o → pending f (assign w m popped) ≡ pending f o
  unfolding assign
  assigned-pending m f v = rw (keys-insert w.filepath w popped.in_progress) (
      ground (
        arith,
        count-add w.filepath f (keys popped.in_progress),
        popped-pending f,
        not-in_progress v,
      ))

  pub assigned-Inv : (m : Manager) → Inv o → Inv (assign w m popped)
  unfolding assign
  assigned-Inv m v = record {
    counted = popped-counted;
    owned =
        keys-insert w.filepath m popped.in_progress_owner
        ∙ ap (add w.filepath) (rw p.state v.owned)
        ∙ sym (keys-insert w.filepath w popped.in_progress);
    named = All-insert (λ e. e.1.filepath ≡ e.0) w.filepath w _ refl (rw p.state v.named);
    once = λ f. omega (arith, assigned-pending m f v, v.once f);
  }

Stolen-Inv :
    {o : Orchestrator} {m : Manager} {r : Result (Option WorkItemRequest)}
    → Stolen o m r
    → Inv o
    → Inv (after r)
Stolen-Inv (refused stops) v = v
Stolen-Inv (asleep live idle) v = v
Stolen-Inv (unqualified w popped live p wrong) v = unqualified-Inv p v
Stolen-Inv {m = m} (assigned w popped live p fits) v = assigned-Inv p m v

Stolen-pending :
    {o : Orchestrator} {m : Manager} {r : Result (Option WorkItemRequest)} (f : String)
    → Stolen o m r
    → Inv o
    → pending f (after r) ≡ pending f o
Stolen-pending f (refused stops) v = refl
Stolen-pending f (asleep live idle) v = refl
Stolen-pending f (unqualified w popped live p wrong) v = unqualified-pending p f
Stolen-pending {m = m} f (assigned w popped live p fits) v = assigned-pending p m f v

pub steal_work-Inv : (o : Orchestrator) (m : Manager) → Inv o → Inv (after (steal_work m o))
steal_work-Inv o m v = Stolen-Inv (steal_work-Stolen o m v) v

-- From a state with the invariant, no steal loses or doubles a pending file, on any branch.
pub steal_work-pending :
    (o : Orchestrator) (m : Manager) (f : String)
    → Inv o
    → pending f (after (steal_work m o)) ≡ pending f o
steal_work-pending o m f v = Stolen-pending f (steal_work-Stolen o m v) v
