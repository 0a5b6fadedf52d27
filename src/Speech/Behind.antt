-- ===== src/Speech/Behind.antt =====
-- batchkit_examples/speech_sdk/recognize.py: the callbacks never move the offset behind the first one.
use batch_processing_kit.Prelude.{
  ℕ, ◌+◌, ◌≤◌, Bool, true, false, List, [], ◌∷◌, Option, none, some, String, if◌then◌else◌, ltb,
  ◌==◌, nat_eq, arith, Bool-cases, inl, inr,
}
use batch_processing_kit.Speech.Session.{
  Setup, Session, SdkEvent, recognized_speech, no_speech, session_stopped, canceled, processed,
  checked_token, audio_recognized, is_tolerated, stop_continuous, callback, callbacks, waits,
  listens, fresh, append_segment, sum_of,
}

checked_token_mono :
    (start : ℕ) (cancelled : Bool) (s : Session)
    → start ≤ s.last_processed
    → start ≤ (checked_token cancelled s).last_processed
checked_token_mono start true s h = h
checked_token_mono start false s h = h

processed_mono :
    (start : ℕ) (cancelled : Bool) (s : Session) (e : Option ℕ)
    → start ≤ s.last_processed
    → start ≤ (processed start cancelled s e).last_processed
processed_mono start cancelled s none h = h
processed_mono start cancelled s (some e) h =
    checked_token_mono start cancelled (record s { last_processed = start + e }) (omega arith)

stop_mono :
    (start : ℕ) (sentiment : Bool) (audio_duration : ℕ) (o : Option String) (s : Session)
    → start ≤ s.last_processed
    → start ≤ (stop_continuous sentiment audio_duration o s).last_processed
unfolding stop_continuous
stop_mono start sentiment audio_duration none s h = h
stop_mono start sentiment audio_duration (some d) s h =
    elim (Bool-cases (is_tolerated sentiment audio_duration s)) [ inl e ↦ rw e h | inr e ↦ rw e h ]

callback_mono :
    (u : Setup) (start audio_duration : ℕ) (cancelled : Bool) (e : SdkEvent) (s : Session)
    → start ≤ s.last_processed
    → start ≤ (callback u start audio_duration cancelled e s).last_processed
unfolding callback audio_recognized
callback_mono u start audio_duration cancelled (recognized_speech none) s h =
    checked_token_mono start cancelled s h
callback_mono u start audio_duration cancelled (recognized_speech (some g)) s h =
    processed_mono start cancelled (append_segment g s) (sum_of g.timing.offset g.timing.duration) h
callback_mono u start audio_duration cancelled no_speech s h =
    checked_token_mono start cancelled s h
callback_mono u start audio_duration cancelled session_stopped s h =
    stop_mono start u.enable_sentiment audio_duration none s h
callback_mono u start audio_duration cancelled (canceled is_error details) s h =
    stop_mono start u.enable_sentiment audio_duration (if is_error then some details else none) s h

callbacks_mono :
    (u : Setup) (start audio_duration : ℕ) (events : List (Bool × SdkEvent)) (s : Session)
    → start ≤ s.last_processed
    → start ≤ (callbacks u start audio_duration events s).last_processed
unfolding callbacks
callbacks_mono u start audio_duration [] s h = h
callbacks_mono u start audio_duration ((cancelled, e) ∷ events) s h =
    callbacks_mono u start audio_duration events (callback u start audio_duration cancelled e s)
      (callback_mono u start audio_duration cancelled e s h)

-- What a session that has ended is behind.
abbrev pub IsBehind : ℕ → Option Session → Type 0
IsBehind start none = Unit
IsBehind start (some s) = start ≤ s.last_processed

waits-IsBehind :
    (u : Setup) (start audio_duration : ℕ) (rounds : List (List (Bool × SdkEvent))) (s : Session)
    → start ≤ s.last_processed
    → IsBehind start (waits u start audio_duration rounds s)
unfolding waits callbacks
waits-IsBehind u start audio_duration [] s h = tt
waits-IsBehind u start audio_duration (events ∷ rounds) s h =
    let s' = callbacks u start audio_duration events s in
    let h' = callbacks_mono u start audio_duration events s h in
    elim (Bool-cases s'.done_event) [
      | inl ready ↦ rw (IsBehind, ready) h'
      | inr more ↦ elim (Bool-cases (s'.last_processed == s.last_processed)) [
        | inl stuck ↦ rw (IsBehind, more, stuck) h'
        | inr moved ↦
            rw (IsBehind, more, moved) (waits-IsBehind u start audio_duration rounds s' h')
      ]
    ]

pub listens-IsBehind :
    (u : Setup) (start audio_duration : ℕ) (rounds : List (List (Bool × SdkEvent)))
    → IsBehind start (listens u start audio_duration rounds)
unfolding listens
listens-IsBehind u start audio_duration rounds = elim (Bool-cases (ltb start audio_duration)) [
  | inl some_left ↦
      rw (IsBehind, some_left)
        (waits-IsBehind u start audio_duration rounds (fresh start) (omega arith))
  | inr over ↦ rw (IsBehind, over) (omega arith)
]
