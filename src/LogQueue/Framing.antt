-- ===== src/LogQueue/Framing.antt =====
-- batchkit/logger.py: the frames of a queue of log records, written and read back.
use batch_processing_kit.Prelude.{
  ℕ, zero, suc, ◌+◌, ◌-◌, ◌≤◌, ◌≡◌, refl, inl, inr, false, List, [], ◌∷◌, ◌++◌, some, length, ltb,
  ◌==◌, nat_eq, take, drop, length-take, length-drop, take_in_two, drop_in_two, take-append,
  drop-append, arith, Bool-cases, ap, ◌∙◌, length-append,
}
use Prim.Native.Nat.{◌/◌, ◌%◌}
use batch_processing_kit.LogQueue.{
  LogRecord, Pickle, byte_length, to_bytes, int_to_2bytes, from_bytes, int_from_2bytes, read_from,
  read, round_size, get_body, get_sized, get_header, frame, event, get,
}

round_size_bounds :
    (chunk : ℕ → ℕ) (n : ℕ) → (1 ≤ round_size chunk (suc n)) × (round_size chunk (suc n) ≤ suc n)
round_size_bounds chunk n = ground arith

-- One round of reading, where the rest is read as it should be.
read_from_round :
    (chunk : ℕ → ℕ) (rounds n k : ℕ) (pipe : List ℕ)
    → round_size chunk n ≡ k
    → 1 ≤ k
    → k ≤ n
    → n ≤ length pipe
    → read_from chunk rounds (n - k) (drop k pipe)
      ≡ some (take (n - k) (drop k pipe), drop (n - k) (drop k pipe))
    → read_from chunk (suc rounds) n pipe ≡ some (take n pipe, drop n pipe)
unfolding read_from
read_from_round chunk rounds n k pipe size some_byte within enough ih =
    let whole : k + (n - k) ≡ n = omega arith in
    let nonempty : (n == 0) ≡ false = ground arith in
    let got : (length (take k pipe) == 0) ≡ false = ground (arith, length-take k pipe) in
    rw (nonempty, size, got, ih)
      (ap some (
        rw size (
          ap (λ (x : List ℕ). (x, drop (n - k) (drop k pipe)))
            (take_in_two k (n - k) pipe ∙ ap (λ (j : ℕ). take j pipe) whole)
          ∙ ap (λ (y : List ℕ). (take n pipe, y))
              (drop_in_two k (n - k) pipe ∙ ap (λ (j : ℕ). drop j pipe) whole))))

read_from-take :
    (chunk : ℕ → ℕ) (rounds n : ℕ) (pipe : List ℕ)
    → n ≤ rounds
    → n ≤ length pipe
    → read_from chunk rounds n pipe ≡ some (take n pipe, drop n pipe)
unfolding read_from take drop
read_from-take chunk zero zero pipe h k = refl
read_from-take chunk zero (suc n) pipe h k = absurd (omega arith)
read_from-take chunk (suc rounds) zero pipe h k = refl
read_from-take chunk (suc rounds) (suc n) pipe h enough =
    let k = round_size chunk (suc n) in
    let (some_byte, within) = round_size_bounds chunk n in
    read_from_round chunk rounds (suc n) k pipe refl some_byte within enough (
      read_from-take chunk rounds (suc n - k) (drop k pipe) (omega arith)
        (omega (arith, length-drop k pipe)))

two_digits : (x : ℕ) → 256 ≤ x → x ≤ 4096 → byte_length 3 x ≡ 2
unfolding byte_length
two_digits x large h = ground arith

pub int_to_2bytes-from_2bytes :
    (x : ℕ)
    → x ≤ 4096
    → (a : ℕ) × (b : ℕ) × (int_to_2bytes x ≡ some (a ∷ b ∷ []))
      × (int_from_2bytes (a ∷ b ∷ []) ≡ some x)
unfolding int_to_2bytes int_from_2bytes from_bytes to_bytes
int_to_2bytes-from_2bytes x h = elim (Bool-cases (ltb x 256)) [
  | inl small ↦ (0, x, ground arith, ground arith)
  | inr large ↦
      let digit : x / 256 % 256 ≡ x / 256 = omega arith in
      let digits = two_digits x (ground arith) h in
      let allowed : ltb 4096 x ≡ false = ground arith in
      (x / 256, x % 256, rw (allowed, large, digits, to_bytes, digit), ground arith)
]

-- A record that `put` writes as it is.
abbrev pub IsShort : Pickle → LogRecord → Type 0
IsShort p r = (length r.msg ≤ 3500) × (length (p.dumps r) ≤ 4094)

pub read_two :
    (chunk : ℕ → ℕ) (a b : ℕ) (rest : List ℕ)
    → read chunk 2 (a ∷ b ∷ rest) ≡ some (a ∷ b ∷ [], rest)
unfolding read take drop
read_two chunk a b rest = read_from-take chunk 2 2 (a ∷ b ∷ rest) (omega arith) (omega arith)

read_body :
    (chunk : ℕ → ℕ) (body rest : List ℕ)
    → read chunk (length body) (body ++ rest) ≡ some (body, rest)
unfolding read
read_body chunk body rest =
    read_from-take chunk (length body) (length body) (body ++ rest) (omega arith)
      (omega (arith, length-append body rest))
    ∙ rw (take-append body rest, drop-append body rest)

module _ (p : Pickle) (chunk : ℕ → ℕ) (r : LogRecord) where
  -- Its frame is two bytes of size and the pickle.
  abbrev Framed : List ℕ → Type 0
  Framed f =
      (frame (p.dumps r) ≡ some f)
      × ((rest : List ℕ)
          → get p chunk (record { closed = false; pipe = f ++ rest })
            ≡ event r (record { closed = false; pipe = rest }))

  pub put_frame : length (p.dumps r) ≤ 4094 → (f : List ℕ) × (length f ≤ 4096) × Framed f
  unfolding frame get
  put_frame small =
      let (a, b, size, back) = int_to_2bytes-from_2bytes (length (p.dumps r)) (omega arith) in
      let some_bytes : (length (p.dumps r) == 0) ≡ false = ground (arith, p.dumps_nonempty r) in
      let allowed : ltb 4094 (length (p.dumps r)) ≡ false = ground arith in
      (
        a ∷ b ∷ p.dumps r,
        omega arith,
        (
          rw (frame, size),
          λ rest. rw (
            read_two chunk a b (p.dumps r ++ rest),
            get_header,
            back,
            get_sized,
            some_bytes,
            allowed,
            read_body chunk (p.dumps r) rest,
            get_body,
            p.loads-dumps r,
          ),
        ),
      )
