-- ===== src/WorkItem/Drain.antt =====
-- batchkit/work_item.py: a batch put on an empty queue and taken out again.
use batch_processing_kit.Prelude.{
  zero, suc, ℕ, ◌+◌, ◌≡◌, refl, List, [], ◌∷◌, map, none, some, String, arith, length, All,
  string_eq, ap,
}
use batch_processing_kit.Prelude.Dict.{count}
use batch_processing_kit.WorkItem.{
  WorkItemRequest, WorkItemQueue, empty_queue, put, get, items, files, qsize,
}
use batch_processing_kit.WorkItem.Heap.{Entry, heappop}
use batch_processing_kit.WorkItem.Order.{
  IsHeap, IsEntry, IsQueue, Bounds, Least-Bounds, put-IsQueue, empty-IsQueue,
}
use batch_processing_kit.WorkItem.Contents.{count-put, qsize-put}

-- What repeated calls of `get` return, oldest first.
pub drain : ℕ → WorkItemQueue → List WorkItemRequest
drain zero q = []
drain (suc n) q = elim (get q) [ none ↦ [] | some (w, rest) ↦ w ∷ drain n rest ]

pub put_all : List WorkItemRequest → WorkItemQueue → WorkItemQueue
put_all [] q = q
put_all (w ∷ ws) q = put_all ws (put w q)

abbrev pub IsDescending : List WorkItemRequest → Type 0
IsDescending [] = Unit
IsDescending (w ∷ ws) = Bounds w ws × IsDescending ws

drain-items :
    (es : List (Entry WorkItemRequest))
    → drain (length es) (record { arr = es }) ≡ map (λ e. e.item) es
unfolding drain get heappop
drain-items [] = refl
drain-items (e ∷ es) = ap (◌∷◌ e.item) (drain-items es)

items-IsDescending :
    (es : List (Entry WorkItemRequest))
    → IsHeap es
    → All IsEntry es
    → IsDescending (map (λ e. e.item) es)
items-IsDescending [] h i = tt
items-IsDescending (e ∷ es) h i = (Least-Bounds e es i.0 i.1 h.0, items-IsDescending es h.1 i.1)

put_all-IsQueue :
    (ws : List WorkItemRequest) (q : WorkItemQueue) → IsQueue q → IsQueue (put_all ws q)
unfolding put_all
put_all-IsQueue [] q v = v
put_all-IsQueue (w ∷ ws) q v = put_all-IsQueue ws (put w q) (put-IsQueue w q v)

pub count-put_all :
    (f : String) (ws : List WorkItemRequest) (q : WorkItemQueue)
    → count f (files (put_all ws q)) ≡ count f (map (λ w. w.filepath) ws) + count f (files q)
unfolding put_all count
count-put_all f [] q = omega arith
count-put_all f (w ∷ ws) q = omega (arith, count-put_all f ws (put w q), count-put f w q)

pub qsize-put_all :
    (ws : List WorkItemRequest) (q : WorkItemQueue) → qsize (put_all ws q) ≡ length ws + qsize q
unfolding put_all
qsize-put_all [] q = omega arith
qsize-put_all (w ∷ ws) q = omega (arith, qsize-put_all ws (put w q), qsize-put w q)

drain-put_all :
    (ws : List WorkItemRequest)
    → drain (length ws) (put_all ws empty_queue) ≡ items (put_all ws empty_queue)
unfolding items
drain-put_all ws =
    let q = put_all ws empty_queue in
    let size : qsize q ≡ length ws = omega (arith, qsize-put_all ws empty_queue) in
    rw (← size) (drain-items q.arr)

-- Items put on an empty queue and taken out again come back in descending order of effective
-- priority, and each file path comes back as often as it was put.
pub put_all-drain :
    (ws : List WorkItemRequest)
    → IsDescending (drain (length ws) (put_all ws empty_queue))
      × ((f : String)
          → count f (map (λ w. w.filepath) (drain (length ws) (put_all ws empty_queue)))
            ≡ count f (map (λ w. w.filepath) ws))
unfolding items files count
put_all-drain ws =
    let v = put_all-IsQueue ws empty_queue empty-IsQueue in
    rw (drain-put_all ws)
      (items-IsDescending _ v.heap v.entries, λ f. omega (arith, count-put_all f ws empty_queue))
