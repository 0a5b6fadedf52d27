-- ===== src/WorkItem/Order.antt =====
-- batchkit/work_item.py: the order in which the queue serves its items.
use batch_processing_kit.Prelude.{
  ◌≡◌, refl, inl, inr, true, false, List, [], ◌∷◌, map, Option, none, some, arith, All, Bool-cases,
  string_eq,
}
use batch_processing_kit.Prelude.Int.{negsuc, ◌*ℤ◌, ◌≤ℤ◌, *ℤ_neg_one, *ℤ_neg_one'}
use batch_processing_kit.WorkItem.{
  WorkItemRequest, WorkItemQueue, empty_queue, put, get, items, effective_priority,
}
use batch_processing_kit.WorkItem.Heap.{Entry, before, heappush, heappop}

module _ {ℓ} {A : Type ℓ} where
  abbrev pub Least : Entry A → List (Entry A) → Type 0
  Least a bs = All (λ x. before x a ≡ false) bs

  abbrev pub IsHeap : List (Entry A) → Type 0
  IsHeap [] = Unit
  IsHeap (a ∷ bs) = Least a bs × IsHeap bs

  before_asymm : (a b : Entry A) → before a b ≡ true → before b a ≡ false
  before_asymm a b h = ground arith

  before_trans : (a b x : Entry A) → before a b ≡ true → before x b ≡ false → before x a ≡ false
  before_trans a b x h k = ground arith

  Least-mono : (a b : Entry A) (xs : List (Entry A)) → before a b ≡ true → Least b xs → Least a xs
  Least-mono a b [] h l = tt
  Least-mono a b (x ∷ xs) h l = (before_trans a b x h l.0, Least-mono a b xs h l.1)

  Least-heappush :
      (a b : Entry A) (bs : List (Entry A))
      → before a b ≡ false
      → Least b bs
      → Least b (heappush a bs)
  unfolding heappush
  Least-heappush a b [] h l = (h, tt)
  Least-heappush a b (c ∷ bs) h l = elim (Bool-cases (before a c)) [
    | inl here ↦ rw here (h, l)
    | inr later ↦ rw later (l.0, Least-heappush a b bs h l.1)
  ]

  heappush-IsHeap : (a : Entry A) (bs : List (Entry A)) → IsHeap bs → IsHeap (heappush a bs)
  unfolding heappush
  heappush-IsHeap a [] h = (tt, tt)
  heappush-IsHeap a (b ∷ bs) h = elim (Bool-cases (before a b)) [
    | inl here ↦ rw here ((before_asymm a b here, Least-mono a b bs here h.0), h)
    | inr later ↦ rw later (Least-heappush a b bs later h.0, heappush-IsHeap a bs h.1)
  ]

-- Each entry has the key that `put` gives its item.
abbrev pub IsEntry : Entry WorkItemRequest → Type 0
IsEntry e = e.key ≡ negsuc 0 *ℤ effective_priority e.item

pub record IsQueue (q : WorkItemQueue) : Type 0 where
  pub heap : IsHeap q.arr
  pub entries : All IsEntry q.arr

All-heappush {κ} :
    (P : Entry WorkItemRequest → Type κ) (a : Entry WorkItemRequest)
    (bs : List (Entry WorkItemRequest))
    → P a
    → All P bs
    → All P (heappush a bs)
unfolding heappush
All-heappush P a [] p h = (p, tt)
All-heappush P a (b ∷ bs) p h = elim (Bool-cases (before a b)) [
  | inl here ↦ rw here (p, h)
  | inr later ↦ rw later (h.0, All-heappush P a bs p h.1)
]

pub empty-IsQueue : IsQueue empty_queue
empty-IsQueue = record { heap = tt; entries = tt }

pub put-IsQueue : (w : WorkItemRequest) (q : WorkItemQueue) → IsQueue q → IsQueue (put w q)
unfolding put
put-IsQueue w q v = record {
  heap = heappush-IsHeap _ q.arr v.heap;
  entries = All-heappush IsEntry _ q.arr refl v.entries;
}

abbrev pub Bounds : WorkItemRequest → List WorkItemRequest → Type 0
Bounds w = All (λ v. effective_priority v ≤ℤ effective_priority w)

priority-before :
    (v w : Entry WorkItemRequest)
    → IsEntry v
    → IsEntry w
    → before v w ≡ false
    → effective_priority v.item ≤ℤ effective_priority w.item
priority-before v w i j h = ground (
  arith,
  *ℤ_neg_one (effective_priority v.item),
  *ℤ_neg_one' (effective_priority v.item),
  *ℤ_neg_one (effective_priority w.item),
  *ℤ_neg_one' (effective_priority w.item),
)

pub Least-Bounds :
    (a : Entry WorkItemRequest) (es : List (Entry WorkItemRequest))
    → IsEntry a
    → All IsEntry es
    → Least a es
    → Bounds a.item (map (λ e. e.item) es)
Least-Bounds a [] i h l = tt
Least-Bounds a (e ∷ es) i h l = (priority-before e a h.0 i l.0, Least-Bounds a es i h.1 l.1)

abbrev Serves : Option (WorkItemRequest × WorkItemQueue) → Type 0
Serves none = Unit
Serves (some (w, rest)) = IsQueue rest × Bounds w (items rest)

get-Serves_arr :
    (es : List (Entry WorkItemRequest))
    → IsQueue (record { arr = es })
    → Serves (get (record { arr = es }))
unfolding get heappop items
get-Serves_arr [] v = tt
get-Serves_arr (e ∷ es) v = (
  record { heap = v.heap.1; entries = v.entries.1 },
  Least-Bounds e es v.entries.0 v.entries.1 v.heap.0,
)

pub get-Serves : (q : WorkItemQueue) → IsQueue q → Serves (get q)
get-Serves q v = get-Serves_arr q.arr v
