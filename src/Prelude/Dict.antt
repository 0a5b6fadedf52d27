-- ===== src/Prelude/Dict.antt =====
-- Python's `dict` and `set` as association lists in insertion order.
use Prim.Native.Nat.{ℕ, ◌+◌, ◌≤◌, ◌<◌}
use mathlib.Core.Bool.{Bool, true, false, not, ◌&&◌, ◌||◌}
use mathlib.Core.Logic.{inl, inr}
use mathlib.Core.List.{List, [], ◌∷◌, ◌++◌}
use mathlib.Core.Option.{Option, none, some}
use mathlib.Core.Path.{◌≡◌, refl, sym, subst}
use native.Mathlib.Omega.{arith}
use batch_processing_kit.Prelude.Tests.{◌==◌, if◌then◌else◌, Eq, Bool-cases}
use batch_processing_kit.Prelude.Lists.{All}

module _ {ℓ} {K : Type ℓ} ⦃e : Eq K⦄ where
  -- How often a key stands in a list.
  unfoldable pub count : K → List K → ℕ
  count k [] = 0
  count k (x ∷ xs) = (if x == k then 1 else 0) + count k xs

  unfoldable pub contains : K → List K → Bool
  contains k [] = false
  contains k (x ∷ xs) = x == k || contains k xs

  pub count-append : (k : K) (xs ys : List K) → count k (xs ++ ys) ≡ count k xs + count k ys
  unfolding count
  count-append k [] ys = omega arith
  count-append k (x ∷ xs) ys = ground (arith, count-append k xs ys)

  pub contains-count : (k : K) (xs : List K) → contains k xs ≡ true → 0 < count k xs
  unfolding count contains
  contains-count k [] h = cc
  contains-count k (x ∷ xs) h = ground (arith, contains-count k xs)

  pub count-contains : (k : K) (xs : List K) → 0 < count k xs → contains k xs ≡ true
  unfolding count contains
  count-contains k [] h = absurd (omega arith)
  count-contains k (x ∷ xs) h = ground (arith, count-contains k xs)

  pub contains-append :
      (k : K) (xs ys : List K) → contains k (xs ++ ys) ≡ (contains k xs || contains k ys)
  unfolding contains
  contains-append k [] ys = refl
  contains-append k (x ∷ xs) ys = ground (arith, contains-append k xs ys)

  -- A `set` gains a member.
  unfoldable pub add : K → List K → List K
  add k xs = if contains k xs then xs else xs ++ k ∷ []

  pub contains-add : (k j : K) (xs : List K) → contains j (add k xs) ≡ (k == j || contains j xs)
  unfolding add contains
  contains-add k j xs = ground (arith, contains-append j xs (k ∷ []), e.beq_iff k j)

abbrev pub keys {ℓ κ} : {K : Type ℓ} {V : Type κ} → List (K × V) → List K
keys [] = []
keys ((k, v) ∷ d) = k ∷ keys d

module _ {ℓ κ} {K : Type ℓ} {V : Type κ} ⦃e : Eq K⦄ where
  unfoldable pub lookup : K → List (K × V) → Option V
  lookup k [] = none
  lookup k ((j, v) ∷ d) = if j == k then some v else lookup k d

  -- `d[k] = v`: in place if the key is there, and at the end if not.
  unfoldable pub insert : K → V → List (K × V) → List (K × V)
  insert k v [] = (k, v) ∷ []
  insert k v ((j, w) ∷ d) = if j == k then (j, v) ∷ d else (j, w) ∷ insert k v d

  -- `del d[k]` of a key that is there.
  unfoldable pub erase : K → List (K × V) → List (K × V)
  erase k [] = []
  erase k ((j, w) ∷ d) = if j == k then d else (j, w) ∷ erase k d

module _ {ℓ} {K : Type ℓ} ⦃e : Eq K⦄ where
  -- The keys that `erase` leaves.
  unfoldable pub remove : K → List K → List K
  remove k [] = []
  remove k (x ∷ xs) = if x == k then xs else x ∷ remove k xs

  pub count-remove :
      (k j : K) (xs : List K)
      → count j (remove k xs) + (if k == j && contains k xs then 1 else 0) ≡ count j xs
  unfolding remove count contains
  count-remove k j [] = ground arith
  count-remove k j (x ∷ xs) =
      ground (arith, count-remove k j xs, e.beq_iff x k, e.beq_iff k j, e.beq_iff x j)

  pub count-add :
      (k j : K) (xs : List K)
      → count j (add k xs) ≡ count j xs + (if k == j && not (contains k xs) then 1 else 0)
  unfolding add count
  count-add k j xs = ground (arith, count-append j xs (k ∷ []))

module _ {ℓ κ} {K : Type ℓ} {V : Type κ} ⦃e : Eq K⦄ where
  pub keys-insert : (k : K) (v : V) (d : List (K × V)) → keys (insert k v d) ≡ add k (keys d)
  unfolding insert add contains
  keys-insert k v [] = refl
  keys-insert k v ((j, w) ∷ d) = ground (arith, keys-insert k v d)

  pub keys-erase : (k : K) (d : List (K × V)) → keys (erase k d) ≡ remove k (keys d)
  unfolding erase remove
  keys-erase k [] = refl
  keys-erase k ((j, w) ∷ d) = ground (arith, keys-erase k d)

  pub lookup-insert :
      (k j : K) (v : V) (d : List (K × V))
      → lookup j (insert k v d) ≡ (if k == j then some v else lookup j d)
  unfolding lookup insert
  lookup-insert k j v [] = refl
  lookup-insert k j v ((i, w) ∷ d) =
      ground (arith, e.beq_iff k j, e.beq_iff i k, e.beq_iff i j, lookup-insert k j v d)

  pub lookup-erase_ne :
      (k j : K) (d : List (K × V)) → (k == j) ≡ false → lookup j (erase k d) ≡ lookup j d
  unfolding lookup erase
  lookup-erase_ne k j [] h = refl
  lookup-erase_ne k j ((i, w) ∷ d) h =
      ground (arith, e.beq_iff k j, e.beq_iff i k, e.beq_iff i j, lookup-erase_ne k j d h)

  pub lookup-contains :
      (k : K) (d : List (K × V)) (v : V) → lookup k d ≡ some v → contains k (keys d) ≡ true
  unfolding lookup contains
  lookup-contains k [] v h = cc
  lookup-contains k ((j, w) ∷ d) v h = ground (arith, lookup-contains k d v)

  pub contains-lookup :
      (k : K) (d : List (K × V)) → contains k (keys d) ≡ true → (v : V) × (lookup k d ≡ some v)
  unfolding lookup contains
  contains-lookup k [] h = absurd (cc)
  contains-lookup k ((j, w) ∷ d) h = elim (Bool-cases (j == k)) [
    | inl same ↦ (w, rw same)
    | inr other ↦ let (v, found) = contains-lookup k d (rw other at h) in (v, rw other found)
  ]

module _ {ℓ κ} {K : Type ℓ} {V : Type κ} ⦃e : Eq K⦄ where
  pub lookup-missing : (k : K) (d : List (K × V)) → contains k (keys d) ≡ false → lookup k d ≡ none
  unfolding lookup contains
  lookup-missing k [] h = refl
  lookup-missing k ((j, w) ∷ d) h = ground (arith, lookup-missing k d)

  pub absent : (k : K) (d : List (K × V)) → count k (keys d) ≡ 0 → All (λ x. (k == x.0) ≡ false) d
  unfolding count
  absent k [] h = tt
  absent k ((j, w) ∷ d) h =
      (ground (arith, e.beq_iff j k, e.beq_iff k j), absent k d (ground arith))

  -- Of distinct keys, `erase` leaves none that it was given.
  pub erase-gone :
      (k : K) (d : List (K × V)) → count k (keys d) ≤ 1 → All (λ x. (k == x.0) ≡ false) (erase k d)
  unfolding erase count
  erase-gone k [] h = tt
  erase-gone k ((j, w) ∷ d) h = elim (Bool-cases (j == k)) [
    | inl same ↦ rw same (absent k d (ground arith))
    | inr other ↦
        rw other (ground (arith, e.beq_iff j k, e.beq_iff k j), erase-gone k d (ground arith))
  ]

  pub erase-absent :
      (k : K) (d : List (K × V)) → count k (keys d) ≤ 1 → contains k (keys (erase k d)) ≡ false
  erase-absent k d h = elim (Bool-cases (contains k (keys (erase k d)))) [
    | inl there ↦ absurd (
        ground (
          arith,
          contains-count k (keys (erase k d)) there,
          keys-erase k d,
          count-remove k k (keys d),
          count-contains k (keys d),
          e.beq_iff k k,
        ))
    | inr gone ↦ gone
  ]

-- A property of every entry.
module _ {ℓ κ μ} {K : Type ℓ} {V : Type κ} ⦃e : Eq K⦄ (P : K × V → Type μ) where
  pub All-erase : (k : K) (d : List (K × V)) → All P d → All P (erase k d)
  unfolding erase
  All-erase k [] h = tt
  All-erase k ((j, w) ∷ d) h = elim (Bool-cases (j == k)) [
    | inl same ↦ rw same h.1
    | inr other ↦ rw other (h.0, All-erase k d h.1)
  ]

  pub All-insert : (k : K) (v : V) (d : List (K × V)) → P (k, v) → All P d → All P (insert k v d)
  unfolding insert
  All-insert k v [] p h = (p, tt)
  All-insert k v ((j, w) ∷ d) p h = elim (Bool-cases (j == k)) [
    | inl same ↦ rw same (subst (λ x. P (x, v)) (sym ((e.beq_iff j k).0 same)) p, h.1)
    | inr other ↦ rw other (h.0, All-insert k v d p h.1)
  ]

  pub All-lookup : (k : K) (v : V) (d : List (K × V)) → All P d → lookup k d ≡ some v → P (k, v)
  unfolding lookup
  All-lookup k v [] h found = absurd (cc)
  All-lookup k v ((j, w) ∷ d) h found = elim (Bool-cases (j == k)) [
    | inl same ↦ subst P (ground (arith, e.beq_iff j k)) h.0
    | inr other ↦ All-lookup k v d h.1 (rw other at found)
  ]
