-- ===== src/BatchStatus.antt =====
-- batchkit/batch_status.py: the scratch directory as a database of batches. Each method holds the
-- provider's lock, so each is one step. Which files `os.unlink` can remove is an argument.
pub mod Lifecycle
pub mod Master
pub mod Deletion
pub mod Watch
pub mod Wakes
pub mod Paths
use batch_processing_kit.Prelude.{
  ℕ, zero, suc, ◌+◌, Bool, true, false, not, List, [], ◌∷◌, Option, none, some, String,
  if◌then◌else◌, leb, ◌==◌, nat_eq, string_eq,
}
use batch_processing_kit.Prelude.Dict.{contains, lookup, insert, erase, keys}

pub data BatchStatusEnum : Type 0 where
  waiting running done deleted : BatchStatusEnum

-- `BatchStatusEnum.value`
abbrev pub value : BatchStatusEnum → ℕ
value waiting = 0
value running = 1
value done = 2
value deleted = 3

abbrev pub name : BatchStatusEnum → String
name waiting = "waiting"
name running = "running"
name done = "done"
name deleted = "deleted"

-- `BatchStatusEnum[text]`; `none` is its KeyError.
unfoldable pub by_name : String → Option BatchStatusEnum
by_name t =
    if t == "waiting"
    then some waiting
    else if t == "running"
    then some running
    else if t == "done"
    then some done
    else if t == "deleted"
    then some deleted
    else none

-- A batch's directory: the text of `.status`, if it is there, and the names of its other files.
pub record BatchDir : Type 0 where
  pub status_file : Option String
  pub files : List String

abbrev pub Scratch : Type 0
Scratch = List (ℕ × BatchDir)

pub record BatchStatus : Type 0 where
  pub batch_id : ℕ
  pub status : BatchStatusEnum
  pub has_results_dir : Bool
  pub has_combined_results : Bool

pub data Error : Type 0 where
  batch_not_found file_not_found key_error : Error

pub data Result {ℓ} (A : Type ℓ) : Type ℓ where
  returns : A → Scratch → Result A
  raises : Error → Scratch → Result A

abbrev pub Action {ℓ} : Type ℓ → Type ℓ
Action A = Scratch → Result A

-- The scratch directory after a method, however it ends.
abbrev pub after {ℓ} : {A : Type ℓ} → Result A → Scratch
after (returns a s) = s
after (raises e s) = s

infixl 5 ◌>>=◌ ◌>>◌
abbrev pub ◌>>=◌ {ℓ κ} : {A : Type ℓ} {B : Type κ} → Action A → (A → Action B) → Action B
◌>>=◌ m f s = elim (m s) [ returns a s' ↦ f a s' | raises e s' ↦ raises e s' ]

abbrev pub ◌>>◌ {ℓ κ} : {A : Type ℓ} {B : Type κ} → Action A → Action B → Action B
m >> k = m >>= λ _. k

abbrev pub return {ℓ} : {A : Type ℓ} → A → Action A
return a s = returns a s

abbrev or_raise {ℓ} : {A : Type ℓ} → Option A → Error → Action A
or_raise none e s = raises e s
or_raise (some a) e s = returns a s

unfoldable pub batch_exists : ℕ → Scratch → Bool
batch_exists b s = contains b (keys s)

-- `assert_batch_exists`, with the directory that it found.
unfoldable pub assert_batch_exists : ℕ → Action BatchDir
assert_batch_exists b s = or_raise (lookup b s) batch_not_found s

-- `open(.status, 'w')` replaces the text.
unfoldable pub change_status_enum : ℕ → BatchStatusEnum → Action (Unit {0})
unfolding assert_batch_exists
change_status_enum b to_state = do
  d ← assert_batch_exists b
  λ s. returns tt (insert b (record d { status_file = some (name to_state) }) s)

unfoldable pub status_enum : ℕ → Action BatchStatusEnum
unfolding assert_batch_exists
status_enum b = do
  d ← assert_batch_exists b
  text ← or_raise d.status_file file_not_found
  or_raise (by_name text) key_error

abbrev pub is_deleted_enum : BatchStatusEnum → Bool
is_deleted_enum deleted = true
is_deleted_enum _ = false

unfoldable pub is_deleted : ℕ → Action Bool
unfolding status_enum
is_deleted b = do e ← status_enum b; return (is_deleted_enum e)

unfoldable pub new_batch : ℕ → Action Bool
unfolding change_status_enum batch_exists
new_batch b s =
    if batch_exists b s
    then returns false s
    else (change_status_enum b waiting >> return true)
        (insert b (record { status_file = none; files = [] }) s)

abbrev pub results_dir : BatchStatusEnum → Bool
results_dir waiting = false
results_dir _ = true

abbrev pub combined_results : BatchStatusEnum → Bool
combined_results done = true
combined_results _ = false

unfoldable pub status : ℕ → Action BatchStatus
unfolding status_enum assert_batch_exists
status b = do
  assert_batch_exists b
  e ← status_enum b
  return (record {
    batch_id = b;
    status = e;
    has_results_dir = results_dir e;
    has_combined_results = combined_results e;
  })

-- The files that stay: those that are no plain file or that `os.unlink` fails on.
unfoldable pub leftovers : (String → Bool) → List String → List String
leftovers unlinks [] = []
leftovers unlinks (f ∷ fs) = if unlinks f then leftovers unlinks fs else f ∷ leftovers unlinks fs

-- The loop of `delete_batch` over the directory's files.
unfoldable pub clear_files : (String → Bool) → ℕ → Action (Unit {0})
unfolding assert_batch_exists
clear_files unlinks b = do
  d ← assert_batch_exists b
  λ s. returns tt (insert b (record d { files = leftovers unlinks d.files }) s)

unfoldable pub delete_batch : (String → Bool) → ℕ → Action BatchStatus
unfolding change_status_enum status clear_files
delete_batch unlinks b = do change_status_enum b deleted; clear_files unlinks b; status b

-- `shutil.rmtree` of the batch's directory.
unfoldable pub rm_batch : ℕ → Scratch → Scratch
rm_batch b s = erase b s
