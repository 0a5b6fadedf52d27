-- ===== src/BatchStatus/Paths.antt =====
-- batchkit/batch_status.py: the directories of batches, and `associated_batch_id`, on texts as lists of
-- code points. The regular expression's `\d` is an ASCII digit here.
use batch_processing_kit.Prelude.{
  length, Option-cases, ℕ, zero, suc, ◌+◌, ◌*◌, ◌<◌, ◌≡◌, refl, inl, inr, Bool, true, false, ◌&&◌,
  List, [], ◌∷◌, ◌++◌, map, append_assoc, Option, none, some, arith, if◌then◌else◌, ltb, leb, ◌==◌,
  nat_eq, ap, ◌∙◌, All, All-append, Bool-cases,
}
use batch_processing_kit.Prelude.Text.{codes}
use Prim.Native.Nat.{◌/◌, ◌%◌, ◌-◌}

-- The decimal digits of a number, with as many rounds as it has digits.
unfoldable pub digits : ℕ → ℕ → List ℕ
digits zero n = []
digits (suc k) n = if ltb n 10 then (48 + n) ∷ [] else digits k (n / 10) ++ (48 + n % 10) ∷ []

abbrev batch_ : List ℕ
batch_ = codes "batch_"

-- `'batch_{batch_id}'.format(batch_id=batch_id)`
unfoldable pub batch_name : ℕ → List ℕ
batch_name b = batch_ ++ digits (suc b) b

abbrev pub is_digit : ℕ → Bool
is_digit c = leb 48 c && leb c 57

-- `int` of the digits, as many as there are.
unfoldable pub read_digits : ℕ → List ℕ → ℕ
read_digits n [] = n
read_digits n (c ∷ cs) = if is_digit c then read_digits (10 * n + (c - 48)) cs else n

unfoldable pub match_digits : List ℕ → Option ℕ
match_digits [] = none
match_digits (c ∷ cs) = if is_digit c then some (read_digits 0 (c ∷ cs)) else none

unfoldable pub match_batch : List ℕ → List ℕ → Option ℕ
match_batch [] cs = match_digits cs
match_batch (p ∷ ps) [] = none
match_batch (p ∷ ps) (c ∷ cs) = if p == c then match_batch ps cs else none

abbrev or_else : Option ℕ → Option ℕ → Option ℕ
or_else none y = y
or_else (some n) y = some n

-- `.*` takes as much as it can of the first line, so that the last match counts. `none` is -1.
unfoldable pub associated_batch_id : List ℕ → Option ℕ
associated_batch_id [] = none
associated_batch_id (c ∷ cs) =
    let rest = associated_batch_id cs in
    or_else (if c == 10 then none else rest) (match_batch batch_ (c ∷ cs))

abbrev id_of : Option ℕ → List ℕ → List ℕ
id_of none rest = rest
id_of (some b) rest = b ∷ rest

-- The names of the directories in the scratch directory, and the ids of those that are a batch's.
unfoldable pub list_batches : List (List ℕ) → List ℕ
list_batches [] = []
list_batches (d ∷ dirs) = id_of (associated_batch_id (d ++ codes "/.")) (list_batches dirs)

abbrev onto_dirs : Option ℕ → List ℕ → List (List ℕ) → List (List ℕ)
onto_dirs none path rest = rest
onto_dirs (some b) path rest = path ∷ rest

-- The paths of the batches' directories, with `os.path.join` of the scratch directory as a parameter.
unfoldable pub batch_dirs : (List ℕ → List ℕ) → List (List ℕ) → List (List ℕ)
batch_dirs join [] = []
batch_dirs join (d ∷ dirs) =
    onto_dirs (associated_batch_id (d ++ codes "/.")) (join d) (batch_dirs join dirs)

abbrev starts_with_digit : List ℕ → Bool
starts_with_digit [] = false
starts_with_digit (c ∷ cs) = is_digit c

read_digits_end : (n : ℕ) (rest : List ℕ) → starts_with_digit rest ≡ false → read_digits n rest ≡ n
unfolding read_digits
read_digits_end n [] h = refl
read_digits_end n (c ∷ cs) h = rw h

read_digit :
    (m d : ℕ) (rest : List ℕ)
    → d < 10
    → read_digits m ((48 + d) ∷ rest) ≡ read_digits (10 * m + d) rest
unfolding read_digits
read_digit m d rest h =
    let is_one : is_digit (48 + d) ≡ true = ground arith in
    rw is_one (ap (λ x. read_digits x rest) (omega arith))

-- The digits of a number read back as it.
read_digits-digits :
    (k n : ℕ) (rest : List ℕ) → n < k → read_digits 0 (digits k n ++ rest) ≡ read_digits n rest
unfolding digits
read_digits-digits zero n rest h = absurd (omega arith)
read_digits-digits (suc k) n rest h = elim (Bool-cases (ltb n 10)) [
  | inl one ↦
      rw one (read_digit 0 n rest (ground arith) ∙ ap (λ x. read_digits x rest) (omega arith))
  | inr more ↦
      let last : ℕ = 48 + n % 10 in
      rw (more, append_assoc (digits k (n / 10)) (last ∷ []) rest)
        (read_digits-digits k (n / 10) (last ∷ rest) (ground arith)
          ∙ read_digit (n / 10) (n % 10) rest (omega arith)
          ∙ ap (λ x. read_digits x rest) (omega arith))
]

pub digits_decimal : (k n : ℕ) → All (λ c. is_digit c ≡ true) (digits k n)
unfolding digits
digits_decimal zero n = tt
digits_decimal (suc k) n = elim (Bool-cases (ltb n 10)) [
  | inl one ↦ rw one (ground arith, tt)
  | inr more ↦ rw more (
      All-append (λ c. is_digit c ≡ true) (digits k (n / 10)) _ (digits_decimal k (n / 10))
        (ground arith, tt))
]

-- There is a first digit.
first_digit :
    (k n : ℕ) → (c : ℕ) × (cs : List ℕ) × (digits (suc k) n ≡ c ∷ cs) × (is_digit c ≡ true)
unfolding digits
first_digit zero n = elim (Bool-cases (ltb n 10)) [
  | inl one ↦ rw one (48 + n, [], refl, ground arith)
  | inr more ↦ rw more (48 + n % 10, [], refl, ground arith)
]
first_digit (suc k) n = elim (Bool-cases (ltb n 10)) [
  | inl one ↦ rw one (48 + n, [], refl, ground arith)
  | inr more ↦
      let (c, cs, e, is_one) = first_digit k (n / 10) in
      rw more (c, cs ++ (48 + n % 10) ∷ [], ap (λ x. x ++ (48 + n % 10) ∷ []) e, is_one)
]

match_digits_first :
    (ds rest : List ℕ) (c : ℕ) (cs : List ℕ)
    → ds ≡ c ∷ cs
    → is_digit c ≡ true
    → match_digits (ds ++ rest) ≡ some (read_digits 0 (ds ++ rest))
unfolding match_digits
match_digits_first ds rest c cs e is_one = rw (e, match_digits, is_one)

not_batch :
    (ds rest : List ℕ)
    → All (λ c. is_digit c ≡ true) ds
    → associated_batch_id rest ≡ none
    → associated_batch_id (ds ++ rest) ≡ none
unfolding associated_batch_id match_batch
not_batch [] rest h e = e
not_batch (c ∷ ds) rest h e =
    let here : (98 == c) ≡ false = ground (arith, h.0) in
    let line : (c == 10) ≡ false = ground (arith, h.0) in rw (not_batch ds rest h.1 e, here, line)

name_matches :
    (b : ℕ) (rest : List ℕ)
    → starts_with_digit rest ≡ false
    → associated_batch_id rest ≡ none
    → associated_batch_id (batch_name b ++ rest) ≡ some b
unfolding associated_batch_id match_batch batch_name
name_matches b rest ends apart_ =
    let (c, cs, e, is_one) = first_digit b b in
    rw (
      not_batch (digits (suc b) b) rest (digits_decimal (suc b) b) apart_,
      match_digits_first (digits (suc b) b) rest c cs e is_one,
      read_digits-digits (suc b) b rest (omega arith),
      read_digits_end b rest ends,
    )

-- A path on one line, in which the name of a batch's directory comes last, belongs to that batch:
-- before it anything may stand, and after it what does not go on with a digit or name a batch.
pub associated_batch_id-batch_name :
    (front rest : List ℕ) (b : ℕ)
    → All (λ c. (c == 10) ≡ false) front
    → starts_with_digit rest ≡ false
    → associated_batch_id rest ≡ none
    → associated_batch_id (front ++ batch_name b ++ rest) ≡ some b
unfolding associated_batch_id
associated_batch_id-batch_name [] rest b line ends none_after = name_matches b rest ends none_after
associated_batch_id-batch_name (c ∷ front) rest b line ends none_after =
    rw (line.0, associated_batch_id-batch_name front rest b line.1 ends none_after)

-- The listing of the batches' own directories gives their ids, in the order of the directories.
pub list_batches-batch_name : (bs : List ℕ) → list_batches (map batch_name bs) ≡ bs
unfolding list_batches associated_batch_id match_batch
list_batches-batch_name [] = refl
list_batches-batch_name (b ∷ bs) =
    rw (name_matches b (codes "/.") refl refl, list_batches-batch_name bs)

-- The directories that are listed as batches are as many as their ids.
pub length-batch_dirs :
    (join : List ℕ → List ℕ) (dirs : List (List ℕ))
    → length (batch_dirs join dirs) ≡ length (list_batches dirs)
unfolding batch_dirs list_batches
length-batch_dirs join [] = refl
length-batch_dirs join (d ∷ dirs) = elim (Option-cases (associated_batch_id (d ++ codes "/."))) [
  | inl none_there ↦ rw none_there (length-batch_dirs join dirs)
  | inr (b, there) ↦ rw there (ap suc (length-batch_dirs join dirs))
]
