-- ===== src/LogQueue/Shrinking.antt =====
-- batchkit/logger.py: the loop that shortens a log message.
use batch_processing_kit.Prelude.{
  ℕ, zero, suc, ◌+◌, ◌-◌, ◌≤◌, ◌<◌, ◌≡◌, inl, inr, length, ltb, nat_eq, take, length-take, arith,
  Bool-cases, length-append,
}
use batch_processing_kit.LogQueue.{LogRecord, Pickle, fits, out_of_rounds, shorten, fit, truncated}

-- A round of the loop takes 100 characters off and adds 19.
length-shorten : (r : LogRecord) → 200 ≤ length r.msg → length (shorten r).msg + 81 ≡ length r.msg
unfolding shorten
length-shorten r h = omega (
  arith,
  length-append (take (length r.msg - 100) r.msg) truncated,
  length-take (length r.msg - 100) r.msg,
)

-- With more rounds than the message has characters, the loop ends by its own tests.
pub fit_ends :
    (p : Pickle) (rounds : ℕ) (r : LogRecord)
    → length r.msg < rounds
    → ¬ (fit p rounds r ≡ out_of_rounds)
unfolding fit
fit_ends p zero r h e = absurd (omega arith)
fit_ends p (suc rounds) r h e = elim (Bool-cases (ltb 4094 (length (p.dumps r)))) [
  | inl long ↦ elim (Bool-cases (ltb (length r.msg) 200)) [
    | inl short ↦ ground (arith)
    | inr more ↦
        fit_ends p rounds (shorten r) (omega (arith, length-shorten r (ground arith)))
          (rw (long, more) at e)
  ]
  | inr fits_now ↦ ground arith
]

-- What the loop lets through has a pickle of at most 4094 bytes.
pub fit_bounds :
    (p : Pickle) (rounds : ℕ) (r r' : LogRecord)
    → fit p rounds r ≡ fits r'
    → length (p.dumps r') ≤ 4094
unfolding fit
fit_bounds p zero r r' e = absurd (cc)
fit_bounds p (suc rounds) r r' e = elim (Bool-cases (ltb 4094 (length (p.dumps r)))) [
  | inl long ↦ elim (Bool-cases (ltb (length r.msg) 200)) [
    | inl short ↦ absurd (ground arith)
    | inr more ↦ fit_bounds p rounds (shorten r) r' (rw (long, more) at e)
  ]
  | inr short ↦ ground arith
]
