-- ===== src/Files/Inputs.antt =====
-- batchkit/utils.py: get_input_files, filter_input_files, flush_queue_into_set, NonDaemonicPool; the
-- handler of batchkit/handlers.py that queues new files. A set is a list without order.
use batch_processing_kit.Prelude.{
  ℕ, ◌-◌, ◌≡◌, refl, Bool, ◌&&◌, ◌||◌, List, [], ◌∷◌, ◌++◌, Option, none, some, String,
  if◌then◌else◌, ltb, string_eq, arith,
}
use batch_processing_kit.Prelude.Dict.{contains, add, contains-append}
use batch_processing_kit.Files.{OsPath}

-- The path that a name of the list stands for.
abbrev pub full_path : OsPath → Option String → String → String
full_path p none f = p.abspath f
full_path p (some base_dir) f = p.abspath (p.join base_dir f)

-- What the generator yields.
unfoldable pub filter_input_files :
    OsPath → (String → Bool) → Option String → List String → List String
filter_input_files p predicate base_dir [] = []
filter_input_files p predicate base_dir (f ∷ fs) =
    let rest = filter_input_files p predicate base_dir fs in
    if predicate (full_path p base_dir f) then full_path p base_dir f ∷ rest else rest

-- The members of the one that are in the other.
abbrev pub intersection : List String → List String → List String
intersection [] ys = []
intersection (x ∷ xs) ys = if contains x ys then x ∷ intersection xs ys else intersection xs ys

-- The directory: its listing, if it is one. The list of inputs: not asked for, no file, or its lines.
pub data InputList : Type 0 where
  all_files : InputList
  no_list : InputList
  lines : List String → InputList

abbrev selected : OsPath → (String → Bool) → String → List String → InputList → List String
selected p predicate folder found all_files = intersection found found
selected p predicate folder found no_list = []
selected p predicate folder found (lines fs) =
    intersection found
      (filter_input_files p predicate none fs ++ filter_input_files p predicate (some folder) fs)

unfoldable pub get_input_files :
    OsPath → (String → Bool) → String → Option (List String) → InputList → List String
get_input_files p predicate folder none input_list = []
get_input_files p predicate folder (some names) input_list =
    selected p predicate folder (filter_input_files p predicate (some folder) names) input_list

-- What is on the queue becomes a set, and the queue is empty.
unfoldable pub flush_queue_into_set : List String → List String → List String
flush_queue_into_set items [] = items
flush_queue_into_set items (f ∷ que) = flush_queue_into_set (add f items) que

-- A file that was closed after writing, or moved into the directory, is queued if it is a valid input.
unfoldable pub handle_file : (String → Bool) → String → List String → List String
handle_file predicate pathname que = if predicate pathname then que ++ pathname ∷ [] else que

contains-intersection :
    (f : String) (xs ys : List String)
    → contains f (intersection xs ys) ≡ (contains f xs && contains f ys)
unfolding contains
contains-intersection f [] ys = refl
contains-intersection f (x ∷ xs) ys =
    ground (arith, contains-intersection f xs ys, string_eq.beq_iff x f)

-- Where the listing is that of a directory, the files are its valid ones, of which those of the list, if
-- there is one, by their full path or by their path in the directory.
pub get_input_files-contains :
    (p : OsPath) (predicate : String → Bool) (folder : String) (names fs : List String) (f : String)
    → contains f (get_input_files p predicate folder (some names) (lines fs)) ≡ (
        contains f (filter_input_files p predicate (some folder) names)
        && (contains f (filter_input_files p predicate none fs)
            || contains f (filter_input_files p predicate (some folder) fs)))
unfolding get_input_files
get_input_files-contains p predicate folder names fs f = ground (
  arith,
  contains-intersection f (filter_input_files p predicate (some folder) names)
      (filter_input_files p predicate none fs ++ filter_input_files p predicate (some folder) fs),
  contains-append f (filter_input_files p predicate none fs)
      (filter_input_files p predicate (some folder) fs),
)

-- NonDaemonicPool: how many workers there are, and how many it wants.
pub record Pool : Type 0 where
  pub workers : ℕ
  pub processes : ℕ
  pub target_num_procs : ℕ

unfoldable pub set_min_num_procs : ℕ → Pool → Pool
set_min_num_procs n pool =
    if ltb pool.processes n then record pool { target_num_procs = n } else pool

-- `_maintain_pool`, where `exited` workers have ended.
unfoldable pub maintain_pool : ℕ → Pool → Pool
maintain_pool exited pool =
    if ltb (pool.workers - exited) pool.target_num_procs
    then record pool { workers = pool.target_num_procs; processes = pool.target_num_procs }
    else record pool { workers = pool.workers - exited; processes = pool.target_num_procs }
