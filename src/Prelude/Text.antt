-- ===== src/Prelude/Text.antt =====
-- Python's `str.lower` on ASCII text, as a list of code points, and the joining of texts.
use Prim.Native.Char.{code}
use Prim.Native.Nat.{ℕ, ◌+◌}
use Prim.Native.String.{String, ◌++◌ as text_append}
use mathlib.Core.Bool.{Bool, true, false, ◌&&◌, ◌||◌}
use mathlib.Core.List.{List, [], ◌∷◌, map, ◌++◌}
use mathlib.Core.Path.{◌≡◌, refl}
use mathlib.Core.Logic.{◌↔◌, inl, inr}
use native.Mathlib.Omega.{arith}
use batch_processing_kit.Prelude.Tests.{leb, ◌==◌, if◌then◌else◌, Eq, nat_eq, Bool-cases}

abbrev pub codes : String → List ℕ
codes String.[] = []
codes (String.◌∷◌ c s) = code c ∷ codes s

abbrev pub lower_code : ℕ → ℕ
lower_code c = if leb b'A' c && leb c b'Z' then c + 32 else c

unfoldable pub lower : String → List ℕ
lower s = map lower_code (codes s)

abbrev pub codes_beq : List ℕ → List ℕ → Bool
codes_beq [] [] = true
codes_beq [] (y ∷ ys) = false
codes_beq (x ∷ xs) [] = false
codes_beq (x ∷ xs) (y ∷ ys) = x == y && codes_beq xs ys

pub codes_beq_iff : (a b : List ℕ) → (codes_beq a b ≡ true) ↔ (a ≡ b)
codes_beq_iff [] [] = (λ _. refl, λ _. refl)
codes_beq_iff [] (y ∷ ys) = (λ h. cc, λ h. cc)
codes_beq_iff (x ∷ xs) [] = (λ h. cc, λ h. cc)
codes_beq_iff (x ∷ xs) (y ∷ ys) = ground (arith, codes_beq_iff xs ys)

instance abbrev pub codes_eq : Eq (List ℕ)
codes_eq = record { beq = codes_beq; beq_iff = codes_beq_iff }

-- `s + t`
infixr 5 ◌<>◌
abbrev pub ◌<>◌ : String → String → String
s <> t = text_append s t

-- `separator.join(texts)`
unfoldable pub join : String → List String → String
join separator [] = ""
join separator (s ∷ []) = s
join separator (s ∷ t ∷ texts) = s <> (separator <> join separator (t ∷ texts))

abbrev pub starts_with : List ℕ → List ℕ → Bool
starts_with [] t = true
starts_with (p ∷ ps) [] = false
starts_with (p ∷ ps) (c ∷ cs) = p == c && starts_with ps cs

-- `part in text`
unfoldable pub is_in : List ℕ → List ℕ → Bool
is_in part [] = starts_with part []
is_in part (c ∷ cs) = starts_with part (c ∷ cs) || is_in part cs

-- What is in a text is in any text that goes on to the left of it.
pub is_in-tail :
    (part : List ℕ) (c : ℕ) (cs : List ℕ) → is_in part cs ≡ true → is_in part (c ∷ cs) ≡ true
unfolding is_in
is_in-tail part c cs h = rw h (ground arith)

-- A text that has `front ++ part` in it has `part` in it.
pub starts_with-is_in :
    (front part text : List ℕ) → starts_with (front ++ part) text ≡ true → is_in part text ≡ true
unfolding is_in
starts_with-is_in [] part [] h = h
starts_with-is_in [] part (c ∷ cs) h = rw h refl
starts_with-is_in (p ∷ ps) part [] h = absurd (cc)
starts_with-is_in (p ∷ ps) part (c ∷ cs) h =
    is_in-tail part c cs (starts_with-is_in ps part cs (ground arith))

pub is_in-append :
    (front part text : List ℕ) → is_in (front ++ part) text ≡ true → is_in part text ≡ true
unfolding is_in
is_in-append front part [] h = starts_with-is_in front part [] h
is_in-append front part (c ∷ cs) h = elim (Bool-cases (starts_with (front ++ part) (c ∷ cs))) [
  | inl here ↦ starts_with-is_in front part (c ∷ cs) here
  | inr later ↦ is_in-tail part c cs (is_in-append front part cs (rw later at h))
]
