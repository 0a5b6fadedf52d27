-- ===== src/WorkItem/Heap.antt =====
-- Python's heapq, as work_item.py uses it: a list in ascending order, so that its head is the
-- smallest entry. Entries compare as tuples, by key and then by identity.
use batch_processing_kit.Prelude.{
  ℕ, Bool, not, ◌&&◌, ◌||◌, List, [], ◌∷◌, Option, none, some, ltb, if◌then◌else◌,
}
use batch_processing_kit.Prelude.Int.{ℤ, ltb_ℤ}

pub record Entry {ℓ} (A : Type ℓ) : Type ℓ where
  pub key : ℤ
  pub ident : ℕ
  pub item : A

module _ {ℓ} {A : Type ℓ} where
  abbrev pub before : Entry A → Entry A → Bool
  before a b = ltb_ℤ a.key b.key || (not (ltb_ℤ b.key a.key) && ltb a.ident b.ident)

  unfoldable pub heappush : Entry A → List (Entry A) → List (Entry A)
  heappush a [] = a ∷ []
  heappush a (b ∷ bs) = if before a b then a ∷ b ∷ bs else b ∷ heappush a bs

  unfoldable pub heappop : List (Entry A) → Option (Entry A × List (Entry A))
  heappop [] = none
  heappop (a ∷ rest) = some (a, rest)
