-- ===== src/LogQueue/Delivery.antt =====
-- batchkit/logger.py: records that are put on the queue, the end mark, and what the listener gets.
use batch_processing_kit.Prelude.{
  ℕ, zero, suc, ◌<◌, ◌≡◌, refl, true, false, List, [], ◌∷◌, ◌++◌, none, some, length, ltb, arith,
  All, append_assoc,
}
use batch_processing_kit.LogQueue.{
  LogRecord, Pickle, LogQueue, cut_down, fit, fits, Put, queued, process_exits, put, put_fitted,
  written, int_to_2bytes, from_bytes, int_from_2bytes, event, ended, get, get_header, listen,
}
use batch_processing_kit.LogQueue.Framing.{IsShort, put_frame, read_two}

-- The records in turn, then the None that closes the queue.
unfoldable pub put_all : Pickle → List LogRecord → LogQueue → Put
put_all p [] q = put p none q
put_all p (r ∷ rs) q = elim (put p (some r) q) [
  | queued q' ↦ put_all p rs q'
  | process_exits ↦ process_exits
]

put_short :
    (p : Pickle) (r : LogRecord) (pipe f : List ℕ)
    → IsShort p r
    → put_fitted p (record { closed = false; pipe = pipe }) (fits r)
      ≡ queued (record { closed = false; pipe = pipe ++ f })
    → put p (some r) (record { closed = false; pipe = pipe })
      ≡ queued (record { closed = false; pipe = pipe ++ f })
unfolding put fit cut_down
put_short p r pipe f (short, small) e =
    let whole : ltb 3500 (length r.msg) ≡ false = ground arith in
    let fitting : ltb 4094 (length (p.dumps r)) ≡ false = ground arith in rw (whole, fitting) e

-- What the writer leaves in an empty pipe, and how a listener reads it.
abbrev Delivers : Pickle → (ℕ → ℕ) → List LogRecord → List ℕ → Type 0
Delivers p chunk rs bytes =
    ((pipe : List ℕ)
      → put_all p rs (record { closed = false; pipe = pipe })
        ≡ queued (record { closed = true; pipe = pipe ++ bytes }))
    × ((rounds : ℕ)
        → length rs < rounds
        → listen p chunk rounds (record { closed = false; pipe = bytes }) ≡ (rs, true))

end_mark :
    (p : Pickle) (chunk : ℕ → ℕ)
    → get p chunk (record { closed = false; pipe = 0 ∷ 0 ∷ [] })
      ≡ ended (record { closed = true; pipe = [] })
unfolding get int_from_2bytes from_bytes
end_mark p chunk = rw (read_two chunk 0 0 [], get_header)

listen_end :
    (p : Pickle) (chunk : ℕ → ℕ) (rounds : ℕ)
    → 0 < rounds
    → listen p chunk rounds (record { closed = false; pipe = 0 ∷ 0 ∷ [] }) ≡ ([], true)
unfolding listen
listen_end p chunk zero h = absurd (omega arith)
listen_end p chunk (suc rounds) h = rw (listen, end_mark p chunk)

listen_event :
    (p : Pickle) (chunk : ℕ → ℕ) (r : LogRecord) (rs : List LogRecord) (f bytes : List ℕ)
    → get p chunk (record { closed = false; pipe = f ++ bytes })
      ≡ event r (record { closed = false; pipe = bytes })
    → ((rounds : ℕ)
        → length rs < rounds
        → listen p chunk rounds (record { closed = false; pipe = bytes }) ≡ (rs, true))
    → (rounds : ℕ) → length (r ∷ rs) < rounds
    → listen p chunk rounds (record { closed = false; pipe = f ++ bytes }) ≡ (r ∷ rs, true)
unfolding listen
listen_event p chunk r rs f bytes got later zero h = absurd (omega arith)
listen_event p chunk r rs f bytes got later (suc rounds) h =
    rw (listen, got, later rounds (omega arith))

puts-Delivers :
    (p : Pickle) (chunk : ℕ → ℕ) (rs : List LogRecord)
    → All (IsShort p) rs
    → (bytes : List ℕ) × Delivers p chunk rs bytes
unfolding put_all put int_to_2bytes
puts-Delivers p chunk [] h = (0 ∷ 0 ∷ [], (λ pipe. refl, listen_end p chunk))
puts-Delivers p chunk (r ∷ rs) (short, rest) =
    let (f, _, (framed, back)) = put_frame p chunk r short.1 in
    let (bytes, (puts, listens)) = puts-Delivers p chunk rs rest in
    (
      f ++ bytes,
      (
        λ pipe. rw (
          put_all,
          put_short p r pipe f short (rw (put_fitted, framed, written)),
          puts (pipe ++ f),
          append_assoc pipe f bytes,
        ),
        listen_event p chunk r rs f bytes (back bytes) listens,
      ),
    )

-- Records that are short enough are put on an empty queue and the queue is closed. None is lost:
-- the listener gets exactly them, in their order, and then sees the end, however many bytes each
-- read of the pipe returns.
pub put_all-listen :
    (p : Pickle) (chunk : ℕ → ℕ) (rs : List LogRecord)
    → All (IsShort p) rs
    → (bytes : List ℕ) × (put_all p rs (record { closed = false; pipe = [] })
        ≡ queued (record { closed = true; pipe = bytes }))
      × (listen p chunk (suc (length rs)) (record { closed = false; pipe = bytes }) ≡ (rs, true))
put_all-listen p chunk rs short =
    let (bytes, (puts, listens)) = puts-Delivers p chunk rs short in
    (bytes, puts [], listens (suc (length rs)) (omega arith))
