-- ===== src/Files/Disk.antt =====
-- batchkit/utils.py: the files on the disk, write_json_file_atomic, move_files and
-- write_single_output_json. A removal and a renaming do all of their work or raise an OSError and do
-- nothing; a write and a copy that break off leave a part of the text.
use batch_processing_kit.Prelude.{
  ℕ, zero, suc, Bool, not, ◌&&◌, List, [], ◌∷◌, ◌++◌, Option, none, some, String, if◌then◌else◌,
  ◌==◌, string_eq,
}
use batch_processing_kit.Prelude.Dict.{contains, lookup, insert, erase, keys}
use batch_processing_kit.Files.{OsPath, get_input_output_file_names}

-- How the next operation goes; `breaks_off` has the part that is written by then.
pub data Fault : Type 0 where
  passes refuses : Fault
  breaks_off : String → Fault

-- The content of each path, which paths are on one device, and how the next operations go: all of them
-- pass after the end of the list.
pub record Disk : Type 0 where
  pub files : List (String × String)
  pub same_device : String → String → Bool
  pub faults : List Fault

pub data Io : Type 0 where
  does : Disk → Io
  os_error : Disk → Io

abbrev pub is_file : String → Disk → Bool
is_file path d = contains path (keys d.files)

-- An operation that leaves `new` if it passes, and `torn` if it breaks off.
abbrev pub attempt :
    List (String × String) → (String → List (String × String)) → Disk → List Fault → Io
attempt new torn d [] = does (record d { files = new; faults = [] })
attempt new torn d (passes ∷ faults) = does (record d { files = new; faults = faults })
attempt new torn d (refuses ∷ faults) = os_error (record d { faults = faults })
attempt new torn d (breaks_off part ∷ faults) =
    os_error (record d { files = torn part; faults = faults })

-- One that does all or nothing; `none` is one that cannot be done.
abbrev pub attempt_whole : Option (List (String × String)) → Disk → Io
attempt_whole none d = os_error d
attempt_whole (some new) d = attempt new (λ part. d.files) d d.faults

-- `open(path, 'w')` and the write of a text.
unfoldable pub write_text : String → String → Disk → Io
write_text path text d =
    attempt (insert path text d.files) (λ part. insert path part d.files) d d.faults

abbrev pub unlinked : String → List (String × String) → Option (List (String × String))
unlinked path files = if contains path (keys files) then some (erase path files) else none

abbrev pub renamed : String → String → List (String × String) → Option (List (String × String))
renamed src target files = elim (lookup src files) [
  | none ↦ none
  | some text ↦ some (insert target text (erase src files))
]

abbrev pub copy_text : String → Option String → Disk → Io
copy_text target none d = os_error d
copy_text target (some text) d = write_text target text d

abbrev pub and_then : Io → (Disk → Io) → Io
and_then (does d) f = f d
and_then (os_error d) f = os_error d

-- `_unlink_impl` and `_copyfile_impl`
unfoldable pub unlink : String → Disk → Io
unlink path d = attempt_whole (unlinked path d.files) d

unfoldable pub copyfile : String → String → Disk → Io
copyfile src target d = copy_text target (lookup src d.files) d

-- `_move_file_impl`: `shutil.move` renames on one device, and else copies and removes.
unfoldable pub move_file : String → String → Disk → Io
move_file src target d =
    if d.same_device src target
    then attempt_whole (renamed src target d.files) d
    else and_then (copyfile src target d) (unlink src)

-- The loop of `write_json_file_atomic`, with the retries that are left.
unfoldable pub move_retries : ℕ → String → String → Disk → Io
move_retries zero tmp json d = os_error d
move_retries (suc n) tmp json d = elim (move_file tmp json d) [
  | does d' ↦ does d'
  | os_error d' ↦ move_retries n tmp json d'
]

-- Either of the errors is raised once the temporary file is gone or cannot be removed.
abbrev pub cleaned : Io → Io
cleaned (does d) = os_error d
cleaned (os_error d) = os_error d

abbrev pub abandon : String → Io → Io
abandon tmp (does d) = does d
abandon tmp (os_error d) = cleaned (unlink tmp d)

-- `write_json_file_atomic` of a text, by way of the new file `tmp`, which stays if its own write fails.
unfoldable pub write_json_file_atomic : ℕ → String → String → String → Disk → Io
write_json_file_atomic write_retries tmp json text d =
    and_then (write_text tmp text d) (λ d'. abandon tmp (move_retries write_retries tmp json d'))

-- The body of the `try` in `move_files`.
unfoldable pub replace_file : Bool → String → String → Disk → Io
replace_file copy_only src target d =
    and_then (if is_file target d then unlink target d else does d)
      (λ d'. if copy_only then copyfile src target d' else move_file src target d')

abbrev pub allowed : Bool → Io → Io
allowed allow_fail (does d) = does d
allowed allow_fail (os_error d) = if allow_fail then does d else os_error d

-- The arguments of `move_files`; `exclude` and `copy_only` are lists of absolute paths.
pub record Move : Type 0 where
  pub src_dir : String
  pub targ_dir : String
  pub extension : String
  pub exclude : List String
  pub copy_only : List String
  pub allow_fail : Bool

abbrev pub src_path : OsPath → Move → String → String
src_path p m f = p.abspath (p.join m.src_dir f)

abbrev pub targ_path : OsPath → Move → String → String
targ_path p m f = p.abspath (p.join m.targ_dir f)

-- One round of the loop.
unfoldable pub move_one : OsPath → Move → String → Disk → Io
move_one p m f d =
    if (p.splitext f).1 == m.extension
      && is_file (src_path p m f) d
      && not (contains (src_path p m f) m.exclude)
    then allowed m.allow_fail
        (replace_file (contains (src_path p m f) m.copy_only) (src_path p m f) (targ_path p m f) d)
    else does d

-- `move_files` over the listing of the source directory.
unfoldable pub move_files : OsPath → Move → List String → Disk → Io
move_files p m [] d = does d
move_files p m (f ∷ names) d = and_then (move_one p m f d) (move_files p m names)

-- The JSON of results: the first of a file's "AudioFileResults", and the text of a list of them.
pub record ResultsJson : Type 0 where
  pub first_result : String → Option String
  pub dumps : List String → String

abbrev pub result_of : OsPath → ResultsJson → String → Disk → String → Option (List String)
result_of p j folder d f = elim (lookup (get_input_output_file_names p f folder).1 d.files) [
  | none ↦ some []
  | some text ↦ elim (j.first_result text) [ none ↦ none | some r ↦ some (r ∷ []) ]
]

-- `none` is the error of a JSON file without a result.
unfoldable pub collect_results :
    OsPath → ResultsJson → String → Disk → List String → Option (List String)
collect_results p j folder d [] = some []
collect_results p j folder d (f ∷ fs) = elim (result_of p j folder d f) [
  | none ↦ none
  | some rs ↦ elim (collect_results p j folder d fs) [ none ↦ none | some rest ↦ some (rs ++ rest) ]
]

unfoldable pub write_single_output_json :
    OsPath → ResultsJson → List String → String → Disk → Option Io
write_single_output_json p j audio_files folder d =
    elim (collect_results p j folder d audio_files) [
      | none ↦ none
      | some rs ↦ some (write_text (p.abspath (p.join folder "results.json")) (j.dumps rs) d)
    ]
