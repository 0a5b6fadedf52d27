-- ===== src/Orchestrator/Settled.antt =====
-- batchkit/orchestrator.py: the pending work after a report.
use batch_processing_kit.Prelude.{
  ◌+◌, ◌≡◌, refl, inl, inr, true, false, not, ◌&&◌, some, String, if◌then◌else◌, arith, ◌==◌,
  nat_eq, string_eq, Bool-cases, ap, sym, ◌∙◌,
}
use batch_processing_kit.Prelude.Dict.{
  contains, lookup, keys, remove, keys-erase, count-remove, contains-lookup, All-erase, All-lookup,
}
use batch_processing_kit.WorkItem.{WorkItemRequest, WorkItemResult}
use batch_processing_kit.Endpoint.{Manager}
use batch_processing_kit.Orchestrator.{
  Orchestrator, after, push_work, merge, merge_results, may_retry, check_completion,
  notify_work_success, notify_work_failure,
}
use batch_processing_kit.Orchestrator.Invariant.{Inv, pending, push_work-pending, push_work-counted}
use batch_processing_kit.Orchestrator.Reports.{
  is_ignored, settle, succeeded, failed, retried, success_settles, failure_settles, success_ignored,
  failure_ignored, success_missing, failure_missing,
}

-- A state with the same queue and the same dictionaries of work in progress.
pub record Same (o o' : Orchestrator) : Type 0 where
  pub queue : o'.file_queue ≡ o.file_queue
  pub size : o'.file_queue_size ≡ o.file_queue_size
  pub work : o'.in_progress ≡ o.in_progress
  pub owner : o'.in_progress_owner ≡ o.in_progress_owner

pub Same-pending : {o o' : Orchestrator} (f : String) → Same o o' → pending f o' ≡ pending f o
Same-pending f s = rw (s.queue, s.work)

pub Same-Inv : {o o' : Orchestrator} → Same o o' → Inv o → Inv o'
Same-Inv s v = record {
  counted = rw (s.size, s.queue) v.counted;
  owned = rw (s.owner, s.work) v.owned;
  named = rw s.work v.named;
  once = λ f. rw (Same-pending f s) (v.once f);
}

pub settle-pending :
    (f g : String) (o : Orchestrator)
    → contains f (keys o.in_progress) ≡ true
    → pending g (settle f o) + (if f == g then 1 else 0) ≡ pending g o
settle-pending f g o busy =
    rw (keys-erase f o.in_progress) (ground (arith, count-remove f g (keys o.in_progress)))

check_completion-Same : (o : Orchestrator) → Same o (check_completion o)
unfolding check_completion
check_completion-Same o = record { queue = refl; size = refl; work = refl; owner = refl }

merge_results-Same :
    (f : String) (r : WorkItemResult) (o : Orchestrator) → Same o (merge_results f r o)
unfolding merge_results
merge_results-Same f r o = record { queue = refl; size = refl; work = refl; owner = refl }

-- A failure that is retried moves its item from the work in progress to the queue.
retried-pending :
    (f g : String) (r : WorkItemResult) (o : Orchestrator) (w : WorkItemRequest)
    → contains f (keys o.in_progress) ≡ true
    → w.filepath ≡ f
    → pending g (settle f (retried f r o w))
        + (if f == g && not (may_retry r (merge f r o)) then 1 else 0)
      ≡ pending g o
unfolding merge_results push_work
retried-pending f g r o w busy named = elim (Bool-cases (may_retry r (merge f r o))) [
  | inl again ↦ rw again (
      ground (
        arith,
        settle-pending f g (push_work w (failed o)) busy,
        push_work-pending g w (failed o),
        ap (λ x. x == g) named,
      ))
  | inr given_up ↦ rw given_up (ground (arith, settle-pending f g o busy))
]

module _ (f : String) (m : Manager) (r : WorkItemResult) (o : Orchestrator)
    (live : is_ignored m o ≡ false) (busy : contains f (keys o.in_progress) ≡ true)
    (v : Inv o) where
  -- A success that is not ignored, on a file in progress, takes one pending occurrence of that
  -- file away, and leaves every other file as often pending as it was.
  pub success-pending :
      (g : String)
      → pending g (after (notify_work_success f m r o)) + (if f == g then 1 else 0) ≡ pending g o
  unfolding check_completion merge_results
  success-pending g = rw (success_settles f m r o live busy v.owned) (settle-pending f g o busy)

  -- A failure that is not ignored, on a file in progress, takes one pending occurrence of that file
  -- away if the result may not be retried; otherwise, and for every other file, nothing changes in
  -- how often it is pending.
  pub failure-pending :
      (g : String)
      → pending g (after (notify_work_failure f m r o))
          + (if f == g && not (may_retry r (merge f r o)) then 1 else 0)
        ≡ pending g o
  unfolding check_completion
  failure-pending g =
      let (w, found) = contains-lookup f o.in_progress busy in
      rw (failure_settles f m r o live busy v.owned w found)
        (retried-pending f g r o w busy (All-lookup (λ e. e.1.filepath ≡ e.0) f w _ v.named found))

succeeded-Same : (o : Orchestrator) → Same o (succeeded o)
succeeded-Same o = record { queue = refl; size = refl; work = refl; owner = refl }

failed-Same : (o : Orchestrator) → Same o (failed o)
failed-Same o = record { queue = refl; size = refl; work = refl; owner = refl }

settle-Inv :
    (f : String) (o : Orchestrator)
    → contains f (keys o.in_progress) ≡ true
    → Inv o
    → Inv (settle f o)
settle-Inv f o busy v = record {
  counted = v.counted;
  owned =
      keys-erase f o.in_progress_owner ∙ ap (remove f) v.owned ∙ sym (keys-erase f o.in_progress);
  named = All-erase (λ e. e.1.filepath ≡ e.0) f o.in_progress v.named;
  once = λ g. omega (arith, settle-pending f g o busy, v.once g);
}

pub notify_work_success-Inv :
    (f : String) (m : Manager) (r : WorkItemResult) (o : Orchestrator)
    → Inv o
    → Inv (after (notify_work_success f m r o))
notify_work_success-Inv f m r o v = elim (Bool-cases (is_ignored m o)) [
  | inl ignored ↦ rw (success_ignored f m r o ignored) (Same-Inv (succeeded-Same o) v)
  | inr live ↦ elim (Bool-cases (contains f (keys o.in_progress))) [
    | inl busy ↦ rw (success_settles f m r o live busy v.owned) (
        Same-Inv (check_completion-Same _) (
          Same-Inv (merge_results-Same f r _)
            (settle-Inv f (succeeded o) busy (Same-Inv (succeeded-Same o) v))))
    | inr missing ↦ rw (success_missing f m r o live missing) (Same-Inv (succeeded-Same o) v)
  ]
]

retried-Inv :
    (f : String) (r : WorkItemResult) (o : Orchestrator) (w : WorkItemRequest)
    → contains f (keys o.in_progress) ≡ true
    → lookup f o.in_progress ≡ some w
    → Inv o
    → Inv (settle f (retried f r o w))
unfolding merge_results push_work
retried-Inv f r o w busy found v =
    let named = All-lookup (λ e. e.1.filepath ≡ e.0) f w _ v.named found in
    elim (Bool-cases (may_retry r (merge f r o))) [
      | inl again ↦
          let settled = settle-Inv f (failed o) busy (Same-Inv (failed-Same o) v) in
          rw again (record {
            counted = omega (arith, v.counted, push_work-counted w o v.counted);
            owned = settled.owned;
            named = settled.named;
            once = λ g. omega (arith, rw again at (retried-pending f g r o w busy named), v.once g);
          })
      | inr given_up ↦ rw given_up (
          settle-Inv f (merge_results f r (failed o)) busy
            (Same-Inv (merge_results-Same f r (failed o)) (Same-Inv (failed-Same o) v)))
    ]

pub notify_work_failure-Inv :
    (f : String) (m : Manager) (r : WorkItemResult) (o : Orchestrator)
    → Inv o
    → Inv (after (notify_work_failure f m r o))
notify_work_failure-Inv f m r o v = elim (Bool-cases (is_ignored m o)) [
  | inl ignored ↦ rw (failure_ignored f m r o ignored) (Same-Inv (failed-Same o) v)
  | inr live ↦ elim (Bool-cases (contains f (keys o.in_progress))) [
    | inl busy ↦
        let (w, found) = contains-lookup f o.in_progress busy in
        rw (failure_settles f m r o live busy v.owned w found)
          (Same-Inv (check_completion-Same _) (retried-Inv f r o w busy found v))
    | inr missing ↦
        rw (failure_missing f m r o live missing)
          (Same-Inv (merge_results-Same f r _) (Same-Inv (failed-Same o) v))
  ]
]
