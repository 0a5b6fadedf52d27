-- ===== src/WorkItem.antt =====
-- batchkit/work_item.py: work items, their results, and the priority queue that hands them out.
-- A field whose value the framework only carries along (latency, thread, the options of one
-- application) is left out. `priority` and `ident` stand for what `priority()` and `id()` return.
pub mod Heap
pub mod Order
pub mod Contents
pub mod Drain
use batch_processing_kit.Prelude.{
  ℕ, ◌≡◌, Bool, List, [], ◌∷◌, map, Option, none, some, String, if◌then◌else◌, length,
}
use batch_processing_kit.Prelude.Int.{ℤ, pos, negsuc, ◌*ℤ◌, ltb_ℤ}
use Heap.{Entry, heappush, heappop}

pub record WorkItemRequest : Type 0 where
  pub ident : ℕ
  pub filepath : String
  pub language : Option String
  pub priority : ℤ

-- What `steal_work` hands to a manager that has to stop.
abbrev pub sentinel : WorkItemRequest
sentinel = record { ident = 0; filepath = "STOP"; language = some ""; priority = pos 0 }

pub record WorkItemResult : Type 0 where
  pub filepath : String
  pub passed : Bool
  pub endpoint : String
  pub attempts : ℕ
  pub can_retry : Bool
  pub cached : Bool
  pub error_type : Option String
  pub failed_reason : Option String

-- All negative priorities are one unknown priority.
unfoldable pub effective_priority : WorkItemRequest → ℤ
effective_priority w = if ltb_ℤ (negsuc 0) w.priority then w.priority else negsuc 0

pub record WorkItemQueue : Type 0 where
  pub arr : List (Entry WorkItemRequest)

abbrev pub empty_queue : WorkItemQueue
empty_queue = record { arr = [] }

-- The tuple (-1 * pri, id(item), item).
abbrev entry : WorkItemRequest → Entry WorkItemRequest
entry w = record { key = negsuc 0 *ℤ effective_priority w; ident = w.ident; item = w }

unfoldable pub put : WorkItemRequest → WorkItemQueue → WorkItemQueue
put w q = record { arr = heappush (entry w) q.arr }

abbrev unpack :
    Option (Entry WorkItemRequest × List (Entry WorkItemRequest))
    → Option (WorkItemRequest × WorkItemQueue)
unpack none = none
unpack (some (e, rest)) = some (e.item, record { arr = rest })

-- `none` is the IndexError of a pop from an empty heap.
unfoldable pub get : WorkItemQueue → Option (WorkItemRequest × WorkItemQueue)
get q = unpack (heappop q.arr)

unfoldable pub items : WorkItemQueue → List WorkItemRequest
items q = map (λ e. e.item) q.arr

unfoldable pub files : WorkItemQueue → List String
unfolding items
files q = map (λ w. w.filepath) (items q)

abbrev pub qsize : WorkItemQueue → ℕ
qsize q = length q.arr
