-- ===== src/BatchStatus/Wakes.antt =====
-- batchkit/batch_status.py: which watches a write of a status wakes.
use batch_processing_kit.Prelude.{
  ℕ, ◌≡◌, refl, inl, inr, Bool, true, false, ◌&&◌, ◌||◌, List, [], ◌∷◌, Option, none, some,
  if◌then◌else◌, ◌==◌, nat_eq, arith, Bool-cases, ap, sym, ◌∙◌, subst,
}
use batch_processing_kit.Prelude.Dict.{contains, contains-add, lookup, insert, lookup-insert, add}
use batch_processing_kit.BatchStatus.{
  BatchStatusEnum, BatchStatus, Scratch, Error, returns, results_dir, combined_results,
}
use batch_processing_kit.BatchStatus.Lifecycle.{HasStatus, status_enum-HasStatus, status-HasStatus}
use batch_processing_kit.BatchStatus.Watch.{
  Callback, Watches, reaches, callbacks_of, call_all, append_callback, place, register_watch,
  answered, notify, process_close_write, Inotify, written, checked_again, registered, toggle,
}

-- The callbacks whose target the status `e` has not reached.
unfoldable pub waiting_on : BatchStatusEnum → List Callback → List Callback
waiting_on e [] = []
waiting_on e (c ∷ cs) = if reaches e c.target then waiting_on e cs else c ∷ waiting_on e cs

-- Whether one of the callbacks that `e` reaches sets the event.
unfoldable pub wakes : BatchStatusEnum → ℕ → List Callback → Bool
wakes e evt [] = false
wakes e evt (c ∷ cs) = (reaches e c.target && c.event == evt) || wakes e evt cs

call_all-kept :
    (e : BatchStatusEnum) (cs : List Callback) (t : List ℕ) → (call_all e cs t).0 ≡ waiting_on e cs
unfolding call_all waiting_on
call_all-kept e [] t = refl
call_all-kept e (c ∷ cs) t = elim (Bool-cases (reaches e c.target)) [
  | inl there ↦ rw there (call_all-kept e cs (add c.event t))
  | inr not_there ↦ rw not_there (ap (◌∷◌ c) (call_all-kept e cs t))
]

call_all-toggled :
    (e : BatchStatusEnum) (evt : ℕ) (cs : List Callback) (t : List ℕ)
    → contains evt (call_all e cs t).1 ≡ (wakes e evt cs || contains evt t)
unfolding call_all wakes
call_all-toggled e evt [] t = refl
call_all-toggled e evt (c ∷ cs) t = elim (Bool-cases (reaches e c.target)) [
  | inl there ↦
      rw there
        (ground (arith, call_all-toggled e evt cs (add c.event t), contains-add c.event evt t))
  | inr not_there ↦ rw not_there (call_all-toggled e evt cs t)
]

-- The outcome of a write of the status `e` to the batch `b`.
abbrev pub Woken : ℕ → BatchStatusEnum → ℕ → Watches → Option Error × Watches → Type 0
Woken b e evt w (x, w') =
    (x ≡ none)
    × (callbacks_of b w' ≡ waiting_on e (callbacks_of b w))
    × (contains evt w'.toggled ≡ (wakes e evt (callbacks_of b w) || contains evt w.toggled))

read_back :
    (b : ℕ) (cs : List Callback) (d : List (ℕ × List Callback)) (v : Watches)
    → v.callbacks ≡ insert b cs d
    → callbacks_of b v ≡ cs
read_back b cs d v h =
    let found : lookup b v.callbacks ≡ some cs =
      ap (lookup b) h ∙ lookup-insert b b cs d ∙ ground (arith, nat_eq.beq_iff b b) in
    rw (callbacks_of, found)

answered-Woken :
    (b : ℕ) (e : BatchStatusEnum) (evt : ℕ) (s : Scratch) (w : Watches) (answer : BatchStatus)
    → answer.status ≡ e
    → Woken b e evt w (answered b w (returns answer s))
answered-Woken b e evt s w answer same =
    subst (λ x. Woken b x evt w (answered b w (returns answer s))) same
      (
        refl,
        read_back b _ w.callbacks (answered b w (returns answer s)).1 refl
            ∙ call_all-kept answer.status (callbacks_of b w) w.toggled,
        call_all-toggled answer.status evt (callbacks_of b w) w.toggled,
      )

notify-Woken :
    (b : ℕ) (e : BatchStatusEnum) (evt : ℕ) (s : Scratch) (w : Watches) (cs : List Callback)
    → callbacks_of b w ≡ cs
    → HasStatus b e s
    → Woken b e evt w (notify b s w cs)
unfolding wakes waiting_on
notify-Woken b e evt s w [] none_there h = (
  refl,
  read_back b [] w.callbacks (notify b s w []).1 refl ∙ sym (ap (waiting_on e) none_there),
  sym (ap (λ cs. wakes e evt cs || contains evt w.toggled) none_there),
)
notify-Woken b e evt s w (c ∷ cs) some_there h =
    subst (λ r. Woken b e evt w (answered b w r)) (sym (status-HasStatus b e s h))
      (answered-Woken b e evt s w
        (record {
          batch_id = b;
          status = e;
          has_results_dir = results_dir e;
          has_combined_results = combined_results e;
        })
        refl)

-- When the status of a batch was written and is `e`, the handler raises nothing. It keeps the
-- callbacks of the batch whose target `e` has not reached, and an event is set after it exactly
-- if it was set or a callback that `e` reaches sets it.
pub process_close_write-Woken :
    (b : ℕ) (e : BatchStatusEnum) (evt : ℕ) (s : Scratch) (w : Watches)
    → HasStatus b e s
    → Woken b e evt w (process_close_write b s w)
unfolding process_close_write
process_close_write-Woken b e evt s w h = notify-Woken b e evt s w (callbacks_of b w) refl h

wakes-append_callback :
    (e : BatchStatusEnum) (evt : ℕ) (target : BatchStatusEnum) (cs : List Callback)
    → wakes e evt (append_callback cs (record { event = evt; target = target }))
      ≡ (wakes e evt cs || reaches e target)
unfolding wakes
wakes-append_callback e evt target [] = ground (arith, nat_eq.beq_iff evt evt)
wakes-append_callback e evt target (c ∷ cs) = ground (arith, wakes-append_callback e evt target cs)

-- A write leaves an event set that is set.
written-toggled :
    (i : Inotify) (b : ℕ) (e : BatchStatusEnum) (evt : ℕ) (s : Scratch) (w : Watches)
    → HasStatus b e s
    → contains evt w.toggled ≡ true
    → contains evt (written i b s w).1.toggled ≡ true
unfolding written
written-toggled i b e evt s w h set = elim (Bool-cases (i.reports w.watched b)) [
  | inl told ↦ rw told (ground (arith, (process_close_write-Woken b e evt s w h).2, set))
  | inr untold ↦ rw untold set
]

toggled_now : (evt : ℕ) (w : Watches) → contains evt (toggle evt w).toggled ≡ true
toggled_now evt w = ground (arith, contains-add evt evt w.toggled, nat_eq.beq_iff evt evt)

-- Once the callback and the watch are placed, a write sets the event by the new callback only.
written-place :
    (i : Inotify) (evt b : ℕ) (target e' : BatchStatusEnum) (s' : Scratch) (w : Watches)
    → ((ws : List ℕ) (c : ℕ) → contains c ws ≡ true → i.reports ws c ≡ true)
    → HasStatus b e' s'
    → contains evt w.toggled ≡ false
    → wakes e' evt (callbacks_of b w) ≡ false
    → contains evt (written i b s' (place evt b target w)).1.toggled ≡ reaches e' target
unfolding written place
written-place i evt b target e' s' w reported h' unset new =
    rw
      (reported (add b w.watched) b
        (ground (arith, contains-add b b w.watched, nat_eq.beq_iff b b)))
      ((process_close_write-Woken b e' evt s' placed h').2 ∙ woken)
  where
    cbs : List Callback
    cbs = append_callback (callbacks_of b w) (record { event = evt; target = target })

    placed : Watches
    placed = record {
      callbacks = insert b cbs w.callbacks;
      watched = add b w.watched;
      toggled = w.toggled;
    }

    woken : (wakes e' evt (callbacks_of b placed) || contains evt w.toggled) ≡ reaches e' target
    woken =
        ap (λ (x : List Callback). wakes e' evt x || contains evt w.toggled)
          (read_back b cbs w.callbacks placed refl)
        ∙ ground (arith, wakes-append_callback e' evt target (callbacks_of b w), new, unset)

-- A watch with a new event is registered on a batch whose status is `e`, and `again` when it is read a
-- second time; then a write makes the status `e'`. If inotify reports every write of a status
-- that is under watch, then the event is set after it exactly if one of the three statuses has
-- reached the target.
pub register-process :
    (i : Inotify) (evt b : ℕ) (target e again e' : BatchStatusEnum) (s1 s2 s' : Scratch)
    (w : Watches)
    → ((ws : List ℕ) (c : ℕ) → contains c ws ≡ true → i.reports ws c ≡ true)
    → HasStatus b e s1
    → HasStatus b again s2
    → HasStatus b e' s'
    → contains evt w.toggled ≡ false
    → wakes e' evt (callbacks_of b w) ≡ false
    → contains evt (written i b s' (register_watch evt b target s1 s2 w).1).1.toggled
      ≡ (reaches e target || reaches again target || reaches e' target)
unfolding register_watch
register-process i evt b target e again e' s1 s2 s' w reported h1 h2 h' unset new =
    rw (status_enum-HasStatus b e s1 h1, registered, status_enum-HasStatus b again s2 h2)
      (elim (Bool-cases (reaches e target)) [
        | inl there ↦ rw there (written-toggled i b e' evt s' (toggle evt w) h' (toggled_now evt w))
        | inr not_there ↦ elim (Bool-cases (reaches again target)) [
          | inl by_now ↦
              rw (not_there, checked_again, by_now)
                (written-toggled i b e' evt s' (toggle evt (place evt b target w)) h'
                  (toggled_now evt (place evt b target w)))
          | inr not_yet ↦
              rw (not_there, checked_again, not_yet)
                (written-place i evt b target e' s' w reported h' unset new)
        ]
      ])
