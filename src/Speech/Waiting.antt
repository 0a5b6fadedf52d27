-- ===== src/Speech/Waiting.antt =====
-- batchkit_examples/speech_sdk/recognize.py: the loop of __recognize that waits for the Speech SDK.
use batch_processing_kit.Prelude.{
  ℕ, zero, suc, ◌-◌, ◌≤◌, ◌<◌, Bool, if◌then◌else◌, ◌==◌, nat_eq, inl, inr, arith, Bool-cases, ◌≢◌,
}

-- One round: the offset that is read before the wait, whether the event was set in time, and the
-- offset after the wait.
pub record Round : Type 0 where
  pub watermark : ℕ
  pub done : Bool
  pub offset : ℕ

pub data Waited : Type 0 where
  signalled : Waited
  no_progress : Waited
  still_waiting : Waited

unfoldable pub await_done : (ℕ → Round) → ℕ → ℕ → Waited
await_done rounds i zero = still_waiting
await_done rounds i (suc fuel) =
    let later = await_done rounds (suc i) fuel in
    if (rounds i).done
    then signalled
    else if (rounds i).offset == (rounds i).watermark
    then no_progress
    else later

-- The callbacks only move the offset forward, and never past the end of the audio.
abbrev pub MovesForward : ℕ → (ℕ → Round) → Type 0
MovesForward end rounds =
    (i : ℕ)
    → ((rounds i).watermark ≤ (rounds i).offset)
      × ((rounds i).offset ≤ (rounds (suc i)).watermark)
      × ((rounds i).offset ≤ end)

await_done_from :
    (end : ℕ) (rounds : ℕ → Round) (i fuel : ℕ)
    → MovesForward end rounds
    → (end - (rounds i).watermark) < fuel
    → await_done rounds i fuel ≢ still_waiting
unfolding await_done
await_done_from end rounds i zero h enough e = absurd (omega arith)
await_done_from end rounds i (suc fuel) h enough e = elim (Bool-cases (rounds i).done) [
  | inl done ↦ absurd (ground (arith))
  | inr waiting ↦ elim (Bool-cases ((rounds i).offset == (rounds i).watermark)) [
    | inl same ↦ absurd (ground (arith))
    | inr moved ↦
        let (up, next, below) = h i in
        await_done_from end rounds (suc i) fuel h (ground (arith)) (rw (waiting, moved) at e)
  ]
]

-- An SDK whose offset only moves forward, and not past the end of the audio, cannot keep the loop
-- waiting: it ends within one round more than the time units of the audio.
pub await_done_ends :
    (end : ℕ) (rounds : ℕ → Round)
    → MovesForward end rounds
    → await_done rounds 0 (suc end) ≢ still_waiting
await_done_ends end rounds h = await_done_from end rounds 0 (suc end) h (omega arith)
