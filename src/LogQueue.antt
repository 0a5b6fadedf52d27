-- ===== src/LogQueue.antt =====
-- batchkit/logger.py: LogEventQueue, a queue of log records over a pipe. Each record is a frame:
-- two bytes of length, then its pickle. Writes of at most 4096 bytes are atomic, so that the pipe
-- holds whole frames in the order of the writes.
pub mod Framing
pub mod Delivery
pub mod Shrinking
pub mod Sinks
use batch_processing_kit.Prelude.{
  ℕ, zero, suc, ◌+◌, ◌-◌, ◌*◌, ◌<◌, ◌≡◌, Bool, true, false, List, [], ◌∷◌, ◌++◌, Option, none, some,
  String, if◌then◌else◌, length, ltb, ◌==◌, nat_eq, take, drop,
}
use batch_processing_kit.Prelude.Text.{codes}
use Prim.Native.Nat.{◌/◌, ◌%◌}

-- The parts of logging.LogRecord that the queue reads or writes. Texts are lists of code points.
pub record LogRecord : Type 0 where
  pub name : List ℕ
  pub level : ℕ
  pub msg : List ℕ
  pub message : Option (List ℕ)

-- `pickle`: what is dumped loads again, and is never empty.
pub record Pickle : Type 0 where
  pub dumps : LogRecord → List ℕ
  pub loads : List ℕ → Option LogRecord
  pub loads-dumps : (r : LogRecord) → loads (dumps r) ≡ some r
  pub dumps_nonempty : (r : LogRecord) → 0 < length (dumps r)

-- The number of base-256 digits of `x`, which is `(x.bit_length() + 7) // 8`. A number has no more
-- digits than the first argument, if it is at most that.
unfoldable pub byte_length : ℕ → ℕ → ℕ
byte_length zero x = 0
byte_length (suc n) x = let rest = byte_length n (x / 256) in if x == 0 then 0 else suc rest

-- `x.to_bytes(n, 'big')`
unfoldable pub to_bytes : ℕ → ℕ → List ℕ
to_bytes zero x = []
to_bytes (suc n) x = to_bytes n (x / 256) ++ (x % 256) ∷ []

-- `none` is the exit of the process.
unfoldable pub int_to_2bytes : ℕ → Option (List ℕ)
int_to_2bytes x =
    if ltb 4096 x
    then none
    else if ltb x 256
    then some (0 ∷ x ∷ [])
    else some (to_bytes (byte_length 3 x) x)

-- `int.from_bytes(xbytes, 'big')`
unfoldable pub from_bytes : ℕ → List ℕ → ℕ
from_bytes acc [] = acc
from_bytes acc (b ∷ bs) = from_bytes (acc * 256 + b) bs

unfoldable pub int_from_2bytes : List ℕ → Option ℕ
int_from_2bytes bs = let x = from_bytes 0 bs in if ltb 4096 x then none else some x

-- `_read`: a round of `os.read` takes at least one byte and at most what is missing, and `chunk`
-- says how many more than one. An empty read is the end of the pipe, where the result is `none`.
-- As each round takes a byte, `n` bytes need `n` rounds at most.
abbrev pub round_size : (ℕ → ℕ) → ℕ → ℕ
round_size chunk n = if ltb (1 + chunk n) n then 1 + chunk n else n

unfoldable pub read_from : (ℕ → ℕ) → ℕ → ℕ → List ℕ → Option (List ℕ × List ℕ)
read_from chunk zero n pipe = if n == 0 then some ([], pipe) else none
read_from chunk (suc rounds) n pipe =
    let k = round_size chunk n in
    let rest = read_from chunk rounds (n - k) (drop k pipe) in
    if n == 0
    then some ([], pipe)
    else if length (take k pipe) == 0
    then none
    else elim rest [ none ↦ none | some (bytes, left) ↦ some (take k pipe ++ bytes, left) ]

unfoldable pub read : (ℕ → ℕ) → ℕ → List ℕ → Option (List ℕ × List ℕ)
read chunk n pipe = read_from chunk n n pipe

-- `_closed` is a flag of the process; the pipe is shared.
pub record LogQueue : Type 0 where
  pub closed : Bool
  pub pipe : List ℕ

abbrev pub truncated : List ℕ
truncated = codes "...LOG TRUNCATED..."

-- The first cut, to 3500 characters.
unfoldable pub cut_down : LogRecord → LogRecord
cut_down r =
    if ltb 3500 (length r.msg)
    then record r {
      msg = take 3500 r.msg ++ truncated;
      message = some (take 3500 r.msg ++ truncated);
    }
    else r

pub data Fit : Type 0 where
  fits : LogRecord → Fit
  exits : Fit
  out_of_rounds : Fit

-- `r.msg[:-100] + "...LOG TRUNCATED..."`
unfoldable pub shorten : LogRecord → LogRecord
shorten r = record r {
  msg = take (length r.msg - 100) r.msg ++ truncated;
  message = some (take (length r.msg - 100) r.msg ++ truncated);
}

-- The loop that shortens the message until its pickle has 4094 bytes.
unfoldable pub fit : Pickle → ℕ → LogRecord → Fit
fit p zero r = out_of_rounds
fit p (suc rounds) r =
    let rest = fit p rounds (shorten r) in
    if ltb 4094 (length (p.dumps r))
    then (if ltb (length r.msg) 200 then exits else rest)
    else fits r

pub data Put : Type 0 where
  queued : LogQueue → Put
  process_exits : Put

-- `int_to_2bytes` of the length, then the pickle.
unfoldable pub frame : List ℕ → Option (List ℕ)
frame bytes = elim (int_to_2bytes (length bytes)) [ none ↦ none | some size ↦ some (size ++ bytes) ]

abbrev pub written : LogQueue → Option (List ℕ) → Put
written q none = process_exits
written q (some bytes) = queued (record q { pipe = q.pipe ++ bytes })

abbrev pub put_fitted : Pickle → LogQueue → Fit → Put
put_fitted p q (fits r) = written q (frame (p.dumps r))
put_fitted p q exits = process_exits
put_fitted p q out_of_rounds = process_exits

abbrev pub put_none : LogQueue → Option (List ℕ) → Put
put_none q none = process_exits
put_none q (some bytes) = queued (record { closed = true; pipe = q.pipe ++ bytes })

-- The message shrinks in each round that the loop makes, so its length bounds them.
unfoldable pub put : Pickle → Option LogRecord → LogQueue → Put
put p none q = if q.closed then queued q else put_none q (int_to_2bytes 0)
put p (some r) q =
    if q.closed
    then queued q
    else put_fitted p q (fit p (suc (length (cut_down r).msg)) (cut_down r))

-- `log`
unfoldable pub log : Pickle → ℕ → List ℕ → LogQueue → Put
log p level msg q =
    put p (some (record { name = codes "batch"; level = level; msg = msg; message = none })) q

pub data Got : Type 0 where
  event : LogRecord → LogQueue → Got
  ended : LogQueue → Got
  unpickling_error : Got
  exits : Got

abbrev pub unpickled : LogQueue → Option LogRecord → Got
unpickled q none = unpickling_error
unpickled q (some r) = event r q

abbrev pub get_body : Pickle → LogQueue → Option (List ℕ × List ℕ) → Got
get_body p q none = ended q
get_body p q (some (bytes, left)) = unpickled (record q { pipe = left }) (p.loads bytes)

abbrev pub get_sized : Pickle → (ℕ → ℕ) → LogQueue → Option ℕ → Got
get_sized p chunk q none = Got.exits
get_sized p chunk q (some s) =
    if s == 0
    then ended (record q { closed = true })
    else if ltb 4094 s
    then Got.exits
    else get_body p q (read chunk s q.pipe)

abbrev pub get_header : Pickle → (ℕ → ℕ) → LogQueue → Option (List ℕ × List ℕ) → Got
get_header p chunk q none = ended q
get_header p chunk q (some (bytes, left)) =
    get_sized p chunk (record q { pipe = left }) (int_from_2bytes bytes)

unfoldable pub get : Pickle → (ℕ → ℕ) → LogQueue → Got
get p chunk q = if q.closed then ended q else get_header p chunk q (read chunk 2 q.pipe)

-- The listener's loop: what it hands to the loggers until the queue ends, and whether it ended.
unfoldable pub listen : Pickle → (ℕ → ℕ) → ℕ → LogQueue → List LogRecord × Bool
listen p chunk zero q = ([], false)
listen p chunk (suc rounds) q = elim (get p chunk q) [
  | event r q' ↦ let (rs, done) = listen p chunk rounds q' in (r ∷ rs, done)
  | ended q' ↦ ([], true)
  | unpickling_error ↦ ([], false)
  | Got.exits ↦ ([], false)
]
