-- ===== src/Orchestrator/Lifecycle.antt =====
-- batchkit/orchestrator.py: the draining of the queue, and the cancellation of a batch.
use batch_processing_kit.Prelude.{
  ℕ, zero, suc, ◌≡◌, refl, Bool, true, false, not, [], map, String, if◌then◌else◌, arith, nat_eq,
  string_eq, ap, ◌∙◌,
}
use batch_processing_kit.Prelude.Dict.{count}
use batch_processing_kit.WorkItem.{qsize}
use batch_processing_kit.WorkItem.Contents.{count_empty}
use batch_processing_kit.Orchestrator.{
  Orchestrator, Result, returns, return, modify, ◌>>=◌, ◌>>◌, drain_rounds, drain_queue,
}
use batch_processing_kit.Orchestrator.Invariant.{Inv, pop_work-Pops, pending}
use batch_processing_kit.Orchestrator.Batches.{
  stop_manager, add_names, is_batch, cancel_running_batch,
}

-- A state whose queue was emptied, and nothing else changed.
pub record Drained (o o' : Orchestrator) : Type 0 where
  pub only_queue : o' ≡ record o { file_queue = o'.file_queue; file_queue_size = 0 }
  pub empty : qsize o'.file_queue ≡ 0

drain_rounds-Drained :
    (n : ℕ) (o : Orchestrator)
    → o.file_queue_size ≡ n
    → o.file_queue_size ≡ qsize o.file_queue
    → (o' : Orchestrator) × (drain_rounds n o ≡ returns tt o') × Drained o o'
unfolding drain_rounds
drain_rounds-Drained zero o e counted = (
  o,
  refl,
  record { only_queue = ap (λ n. record o { file_queue_size = n }) e; empty = omega arith },
)
drain_rounds-Drained (suc n) o e counted =
    let (w, popped, pops, p) = pop_work-Pops o counted (omega arith) in
    let smaller : popped.file_queue_size ≡ n = rw p.state (omega arith) in
    let still : popped.file_queue_size ≡ qsize popped.file_queue =
      rw p.state (omega (arith, p.size)) in
    let (o', ends, d) = drain_rounds-Drained n popped smaller still in
    (
      o',
      rw (pops, ◌>>◌, ◌>>=◌) ends,
      record {
        only_queue =
            d.only_queue
            ∙ ap
                (λ (x : Orchestrator). record x { file_queue = o'.file_queue; file_queue_size = 0 })
                p.state;
        empty = d.empty;
      },
    )

pub drain_queue-Drained :
    (o : Orchestrator)
    → o.file_queue_size ≡ qsize o.file_queue
    → (o' : Orchestrator) × (drain_queue o ≡ returns tt o') × Drained o o'
unfolding drain_queue
drain_queue-Drained o counted = drain_rounds-Drained o.file_queue_size o refl counted

-- Nothing is queued and nothing in progress.
pub record IsIdle (o : Orchestrator) : Type 0 where
  pub size : o.file_queue_size ≡ 0
  pub queue : qsize o.file_queue ≡ 0
  pub work : o.in_progress ≡ []
  pub owner : o.in_progress_owner ≡ []

pub IsIdle-pending : (o : Orchestrator) (f : String) → IsIdle o → pending f o ≡ 0
unfolding count
IsIdle-pending o f i = rw i.work (omega (arith, count_empty f o.file_queue i.queue))

pub IsIdle-Inv : (o : Orchestrator) → IsIdle o → Inv o
IsIdle-Inv o i = record {
  counted = omega (arith, i.size, i.queue);
  owned = rw (i.work, i.owner);
  named = rw i.work tt;
  once = λ f. omega (arith, IsIdle-pending o f i);
}

module _ (b : ℕ) (o : Orchestrator) where
  abbrev pub canceled : Orchestrator → Orchestrator
  canceled d = record d {
    in_progress = [];
    in_progress_owner = [];
    endpoint_managers = map stop_manager d.endpoint_managers;
    old_managers = add_names d.endpoint_managers d.old_managers;
    batch_completion = true;
  }

  abbrev cancel_if : Bool → Result Bool
  cancel_if other =
      (if other then return false else (drain_queue >> (modify canceled >> return true))) o

  pub cancel_other : is_batch o.on_batch_id b ≡ false → cancel_running_batch b o ≡ returns false o
  unfolding cancel_running_batch
  cancel_other h = ap (λ x. cancel_if (not x)) h

  -- Canceling the batch that is running returns true, and leaves no work, a completed batch, and
  -- managers that are all retired.
  pub cancel_running :
      is_batch o.on_batch_id b ≡ true
      → Inv o
      → (d : Orchestrator) × (cancel_running_batch b o ≡ returns true (canceled d)) × Drained o d
  unfolding cancel_running_batch
  cancel_running h v =
      let (d, e, drained) = drain_queue-Drained o v.counted in
      (d, ap (λ x. cancel_if (not x)) h ∙ rw (e, ◌>>◌, ◌>>=◌), drained)

  pub canceled-IsIdle : (d : Orchestrator) → Drained o d → IsIdle (canceled d)
  canceled-IsIdle d x = record {
    size = rw x.only_queue;
    queue = x.empty;
    work = refl;
    owner = refl;
  }
