-- ===== src/Orchestrator/Invariant.antt =====
-- batchkit/orchestrator.py: the state between two methods, and the steps that methods share.
use batch_processing_kit.Prelude.{
  ℕ, suc, ◌+◌, ◌-◌, ◌≤◌, ◌<◌, ◌≡◌, refl, inl, inr, none, some, String, if◌then◌else◌, arith, ◌==◌,
  nat_eq, string_eq, All, Option-cases,
}
use batch_processing_kit.Prelude.Dict.{keys, count}
use batch_processing_kit.WorkItem.{WorkItemRequest, WorkItemQueue, get, files, qsize}
use batch_processing_kit.WorkItem.Contents.{Gets, get-Gets, count-put, qsize-put}
use batch_processing_kit.Orchestrator.{Orchestrator, returns, pop_work, push_work}

-- How often a file path is pending: queued or in progress.
abbrev pub pending : String → Orchestrator → ℕ
pending f o = count f (files o.file_queue) + count f (keys o.in_progress)

pub record Inv (o : Orchestrator) : Type 0 where
  pub counted : o.file_queue_size ≡ qsize o.file_queue
  pub owned : keys o.in_progress_owner ≡ keys o.in_progress
  pub named : All (λ e. e.1.filepath ≡ e.0) o.in_progress
  pub once : (f : String) → pending f o ≤ 1

-- What `pop_work` does when the count is positive.
pub record Pops (o : Orchestrator) (w : WorkItemRequest) (o' : Orchestrator) : Type 0 where
  pub queue : WorkItemQueue
  pub state : o' ≡ record o { file_queue = queue; file_queue_size = o.file_queue_size - 1 }
  pub size : o.file_queue_size ≡ suc (qsize queue)
  pub contents :
      (f : String)
      → count f (files o.file_queue) ≡ (if w.filepath == f then 1 else 0) + count f (files queue)

pub pop_work-Pops :
    (o : Orchestrator)
    → o.file_queue_size ≡ qsize o.file_queue
    → 0 < o.file_queue_size
    → (w : WorkItemRequest) × (o' : Orchestrator) × (pop_work o ≡ returns w o') × Pops o w o'
unfolding pop_work
pop_work-Pops o counted h = elim (Option-cases (get o.file_queue)) [
  | inl e ↦ absurd (let g : Gets o.file_queue none = rw e at (get-Gets o.file_queue) in omega arith)
  | inr ((w, q), e) ↦
      let g : Gets o.file_queue (some (w, q)) = rw e at (get-Gets o.file_queue) in
      (
        w,
        record o { file_queue = q; file_queue_size = o.file_queue_size - 1 },
        rw (e, pop_work),
        record { queue = q; state = refl; size = omega arith; contents = g.1 },
      )
]

pub push_work-pending :
    (f : String) (w : WorkItemRequest) (o : Orchestrator)
    → pending f (push_work w o) ≡ (if w.filepath == f then 1 else 0) + pending f o
unfolding push_work
push_work-pending f w o = omega (arith, count-put f w o.file_queue)

pub push_work-counted :
    (w : WorkItemRequest) (o : Orchestrator)
    → o.file_queue_size ≡ qsize o.file_queue
    → (push_work w o).file_queue_size ≡ qsize (push_work w o).file_queue
unfolding push_work
push_work-counted w o h = omega (arith, qsize-put w o.file_queue)
