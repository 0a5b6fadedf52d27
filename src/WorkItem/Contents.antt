-- ===== src/WorkItem/Contents.antt =====
-- batchkit/work_item.py: what the queue holds, as a multiset of file paths, and how much.
use batch_processing_kit.Prelude.{
  suc, ◌+◌, ◌≡◌, refl, List, [], ◌∷◌, map, Option, none, some, String, arith, if◌then◌else◌, length,
  ◌==◌, string_eq,
}
use batch_processing_kit.Prelude.Dict.{count}
use batch_processing_kit.WorkItem.{WorkItemRequest, WorkItemQueue, put, get, files, qsize}
use batch_processing_kit.WorkItem.Heap.{Entry, heappush, heappop}

length-heappush {ℓ} :
    {A : Type ℓ} (a : Entry A) (bs : List (Entry A)) → length (heappush a bs) ≡ suc (length bs)
unfolding heappush
length-heappush a [] = refl
length-heappush a (b ∷ bs) = ground (arith, length-heappush a bs)

abbrev paths : List (Entry WorkItemRequest) → List String
paths es = map (λ w. w.filepath) (map (λ e. e.item) es)

count-heappush :
    (f : String) (a : Entry WorkItemRequest) (bs : List (Entry WorkItemRequest))
    → count f (paths (heappush a bs)) ≡ (if a.item.filepath == f then 1 else 0) + count f (paths bs)
unfolding heappush count
count-heappush f a [] = refl
count-heappush f a (b ∷ bs) = ground (arith, count-heappush f a bs)

pub qsize-put : (w : WorkItemRequest) (q : WorkItemQueue) → qsize (put w q) ≡ suc (qsize q)
unfolding put
qsize-put w q = length-heappush _ q.arr

pub count-put :
    (f : String) (w : WorkItemRequest) (q : WorkItemQueue)
    → count f (files (put w q)) ≡ (if w.filepath == f then 1 else 0) + count f (files q)
unfolding put files
count-put f w q = count-heappush f _ q.arr

-- A `get` fails on the empty queue only; otherwise it takes one item out.
abbrev pub Gets : WorkItemQueue → Option (WorkItemRequest × WorkItemQueue) → Type 0
Gets q none = (qsize q ≡ 0)
Gets q (some (w, rest)) =
    (qsize q ≡ suc (qsize rest))
    × ((f : String) → count f (files q) ≡ (if w.filepath == f then 1 else 0) + count f (files rest))

get-Gets_arr :
    (es : List (Entry WorkItemRequest)) → Gets (record { arr = es }) (get (record { arr = es }))
unfolding get heappop files count
get-Gets_arr [] = refl
get-Gets_arr (e ∷ es) = (refl, λ f. refl)

pub get-Gets : (q : WorkItemQueue) → Gets q (get q)
get-Gets q = get-Gets_arr q.arr

count_empty_arr :
    (f : String) (es : List (Entry WorkItemRequest))
    → length es ≡ 0
    → count f (files (record { arr = es })) ≡ 0
unfolding files count
count_empty_arr f [] h = refl
count_empty_arr f (e ∷ es) h = absurd (omega arith)

pub count_empty : (f : String) (q : WorkItemQueue) → qsize q ≡ 0 → count f (files q) ≡ 0
count_empty f q h = count_empty_arr f q.arr h
