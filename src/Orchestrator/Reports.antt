-- ===== src/Orchestrator/Reports.antt =====
-- batchkit/orchestrator.py: `notify_work_success` and `notify_work_failure` on every branch.
use batch_processing_kit.Prelude.{
  ◌+◌, ◌≡◌, inl, inr, Bool, true, false, ◌||◌, none, some, String, if◌then◌else◌, nat_eq, string_eq,
  Bool-cases,
}
use batch_processing_kit.Prelude.Dict.{contains, lookup, erase, keys, lookup-missing}
use batch_processing_kit.WorkItem.{WorkItemRequest, WorkItemResult}
use batch_processing_kit.Endpoint.{Manager}
use batch_processing_kit.Orchestrator.{
  key_error, Orchestrator, returns, raises, ◌>>=◌, ◌>>◌, modify, push_work, is_old, merge,
  merge_results, may_retry, requeue, del_in_progress, del_in_progress_owner, check_completion,
  notify_work_success, notify_work_failure,
}

abbrev pub is_ignored : Manager → Orchestrator → Bool
is_ignored m o = is_old m o || o.stop_requested

-- The item leaves the dictionaries of work in progress.
abbrev pub settle : String → Orchestrator → Orchestrator
settle f o = record o {
  in_progress = erase f o.in_progress;
  in_progress_owner = erase f o.in_progress_owner;
}

abbrev pub succeeded : Orchestrator → Orchestrator
succeeded o = record o { work_success_callbacks = o.work_success_callbacks + 1 }

abbrev pub failed : Orchestrator → Orchestrator
failed o = record o { work_failure_callbacks = o.work_failure_callbacks + 1 }

-- Of a manager that was retired, or after a stop, a report changes a counter only.
pub success_ignored :
    (f : String) (m : Manager) (r : WorkItemResult) (o : Orchestrator)
    → is_ignored m o ≡ true
    → notify_work_success f m r o ≡ returns tt (succeeded o)
unfolding notify_work_success is_old
success_ignored f m r o h = rw h

pub failure_ignored :
    (f : String) (m : Manager) (r : WorkItemResult) (o : Orchestrator)
    → is_ignored m o ≡ true
    → notify_work_failure f m r o ≡ returns tt (failed o)
unfolding notify_work_failure is_old
failure_ignored f m r o h = rw h

del_in_progress_busy :
    (f : String) (o : Orchestrator)
    → contains f (keys o.in_progress) ≡ true
    → del_in_progress f o ≡ returns tt (record o { in_progress = erase f o.in_progress })
unfolding del_in_progress
del_in_progress_busy f o h = rw h

del_in_progress_owner_busy :
    (f : String) (o : Orchestrator)
    → contains f (keys o.in_progress_owner) ≡ true
    → del_in_progress_owner f o
      ≡ returns tt (record o { in_progress_owner = erase f o.in_progress_owner })
unfolding del_in_progress_owner
del_in_progress_owner_busy f o h = rw h

requeue_busy :
    (f : String) (w : WorkItemRequest) (s : Orchestrator)
    → lookup f s.in_progress ≡ some w
    → requeue f s ≡ returns tt (push_work w s)
unfolding requeue
requeue_busy f w s h = rw h

-- A failed item goes back into the queue if it may be retried.
abbrev pub retried : String → WorkItemResult → Orchestrator → WorkItemRequest → Orchestrator
retried f r o w =
    if may_retry r (merge f r o)
    then push_work w (merge_results f r (failed o))
    else merge_results f r (failed o)

both_settle :
    (f : String) (s : Orchestrator) (next : Orchestrator → Orchestrator)
    → contains f (keys s.in_progress) ≡ true
    → contains f (keys s.in_progress_owner) ≡ true
    → (del_in_progress f >> (del_in_progress_owner f >> modify next)) s
      ≡ returns tt (next (settle f s))
both_settle f s next h k = rw (
  del_in_progress_busy f s h,
  ◌>>◌,
  ◌>>=◌,
  del_in_progress_owner_busy f (record s { in_progress = erase f s.in_progress }) k,
  ◌>>◌,
  ◌>>=◌,
)

module _ (f : String) (m : Manager) (r : WorkItemResult) (o : Orchestrator)
    (live : is_ignored m o ≡ false) (busy : contains f (keys o.in_progress) ≡ true)
    (owned : keys o.in_progress_owner ≡ keys o.in_progress) where
  owner_busy : contains f (keys o.in_progress_owner) ≡ true
  owner_busy = rw owned busy

  pub success_settles :
      notify_work_success f m r o
      ≡ returns tt (check_completion (merge_results f r (settle f (succeeded o))))
  unfolding notify_work_success is_old
  success_settles =
      rw live
        (both_settle f (succeeded o) (λ s. check_completion (merge_results f r s)) busy owner_busy)

  pub failure_settles :
      (w : WorkItemRequest)
      → lookup f o.in_progress ≡ some w
      → notify_work_failure f m r o ≡ returns tt (check_completion (settle f (retried f r o w)))
  unfolding notify_work_failure is_old merge_results push_work
  failure_settles w found = elim (Bool-cases (may_retry r (merge f r o))) [
    | inl again ↦
        rw (live, again, requeue_busy f w (merge_results f r (failed o)) found, ◌>>=◌)
          (both_settle f (push_work w (merge_results f r (failed o))) check_completion busy
            owner_busy)
    | inr given_up ↦
        rw (live, given_up)
          (both_settle f (merge_results f r (failed o)) check_completion busy owner_busy)
  ]

pub del_in_progress_missing :
    (f : String) (o : Orchestrator)
    → contains f (keys o.in_progress) ≡ false
    → del_in_progress f o ≡ raises key_error o
unfolding del_in_progress
del_in_progress_missing f o h = rw h

requeue_missing :
    (f : String) (s : Orchestrator)
    → lookup f s.in_progress ≡ none
    → requeue f s ≡ raises key_error s
unfolding requeue
requeue_missing f s h = rw h

pub success_missing :
    (f : String) (m : Manager) (r : WorkItemResult) (o : Orchestrator)
    → is_ignored m o ≡ false
    → contains f (keys o.in_progress) ≡ false
    → notify_work_success f m r o ≡ raises key_error (succeeded o)
unfolding notify_work_success is_old
success_missing f m r o live missing =
    rw (live, del_in_progress_missing f (succeeded o) missing, ◌>>◌, ◌>>=◌)

pub failure_missing :
    (f : String) (m : Manager) (r : WorkItemResult) (o : Orchestrator)
    → is_ignored m o ≡ false
    → contains f (keys o.in_progress) ≡ false
    → notify_work_failure f m r o ≡ raises key_error (merge_results f r (failed o))
unfolding notify_work_failure is_old merge_results
failure_missing f m r o live missing = elim (Bool-cases (may_retry r (merge f r o))) [
  | inl again ↦ rw (
    live,
    again,
    requeue_missing f (merge_results f r (failed o)) (lookup-missing f o.in_progress missing),
    ◌>>=◌,
  )
  | inr given_up ↦ rw (
    live,
    given_up,
    del_in_progress_missing f (merge_results f r (failed o)) missing,
    ◌>>◌,
    ◌>>=◌,
  )
]
