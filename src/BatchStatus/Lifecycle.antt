-- ===== src/BatchStatus/Lifecycle.antt =====
-- batchkit/batch_status.py: the status of a batch through the methods that write it.
use batch_processing_kit.Prelude.{
  ℕ, ◌≡◌, refl, inl, inr, Bool, true, false, [], none, some, String, arith, ◌==◌, nat_eq, string_eq,
  Bool-cases, ◌∙◌,
}
use batch_processing_kit.Prelude.Dict.{
  contains, lookup, insert, contains-lookup, lookup-insert, lookup-contains, keys,
}
use batch_processing_kit.BatchStatus.{
  BatchStatusEnum, waiting, running, done, deleted, name, by_name, BatchDir, Scratch,
  batch_not_found, returns, raises, after, ◌>>=◌, batch_exists, change_status_enum, status_enum,
  is_deleted, new_batch, status, delete_batch, leftovers, results_dir, combined_results,
  assert_batch_exists, clear_files,
}

-- The name of a status reads back as that status.
pub by_name-name : (e : BatchStatusEnum) → by_name (name e) ≡ some e
unfolding by_name
by_name-name waiting = refl
by_name-name running = refl
by_name-name done = refl
by_name-name deleted = refl

-- The status that is on file for a batch.
abbrev pub HasStatus : ℕ → BatchStatusEnum → Scratch → Type 0
HasStatus b e s = (d : BatchDir) × (lookup b s ≡ some d) × (d.status_file ≡ some (name e))

pub status_enum-HasStatus :
    (b : ℕ) (e : BatchStatusEnum) (s : Scratch) → HasStatus b e s → status_enum b s ≡ returns e s
unfolding status_enum
status_enum-HasStatus b e s (d, found, text) = rw (found, ◌>>=◌, text, ◌>>=◌, by_name-name e)

pub lookup_same : (b : ℕ) (d : BatchDir) (s : Scratch) → lookup b (insert b d s) ≡ some d
lookup_same b d s = ground (arith, lookup-insert b b d s, nat_eq.beq_iff b b)

pub lookup_other :
    (b c : ℕ) (d : BatchDir) (s : Scratch) → (c == b) ≡ false → lookup c (insert b d s) ≡ lookup c s
lookup_other b c d s other =
    ground (arith, lookup-insert b c d s, nat_eq.beq_iff c b, nat_eq.beq_iff b c)

pub change_status_found :
    (b : ℕ) (e : BatchStatusEnum) (s : Scratch) (d : BatchDir)
    → lookup b s ≡ some d
    → change_status_enum b e s ≡ returns tt (insert b (record d { status_file = some (name e) }) s)
unfolding change_status_enum assert_batch_exists
change_status_found b e s d found = rw (found, ◌>>=◌)

-- The status of an existing batch can be set to any value; `status_enum` then reads that value
-- and the directory of any other batch is as before.
pub change_status-reads :
    (b c : ℕ) (e : BatchStatusEnum) (s : Scratch) (d : BatchDir)
    → lookup b s ≡ some d
    → (c == b) ≡ false
    → (change_status_enum b e s ≡ returns tt (after (change_status_enum b e s)))
      × (status_enum b (after (change_status_enum b e s))
          ≡ returns e (after (change_status_enum b e s)))
      × (lookup c (after (change_status_enum b e s)) ≡ lookup c s)
change_status-reads b c e s d found other =
    let written : BatchDir = record d { status_file = some (name e) } in
    rw (change_status_found b e s d found) (
      refl,
      status_enum-HasStatus b e (insert b written s) (written, lookup_same b written s, refl),
      lookup_other b c written s other,
    )

-- A batch that has no directory.
abbrev pub IsMissing : ℕ → Scratch → Type 0
IsMissing b s = lookup b s ≡ none

missing_exists : (b : ℕ) (s : Scratch) → IsMissing b s → batch_exists b s ≡ false
unfolding batch_exists
missing_exists b s missing = elim (Bool-cases (contains b (keys s))) [
  | inl there ↦ let (d, found) = contains-lookup b s there in absurd (cc)
  | inr gone ↦ gone
]

found_exists : (b : ℕ) (s : Scratch) (d : BatchDir) → lookup b s ≡ some d → batch_exists b s ≡ true
unfolding batch_exists
found_exists b s d found = lookup-contains b s d found

-- For a batch that has no directory, every method that asserts the batch raises `batch_not_found`
-- and changes nothing.
pub missing_raises :
    (b : ℕ) (e : BatchStatusEnum) (unlinks : String → Bool) (s : Scratch)
    → IsMissing b s
    → (change_status_enum b e s ≡ raises batch_not_found s)
      × (status_enum b s ≡ raises batch_not_found s)
      × (is_deleted b s ≡ raises batch_not_found s)
      × (status b s ≡ raises batch_not_found s)
      × (delete_batch unlinks b s ≡ raises batch_not_found s)
unfolding change_status_enum status_enum is_deleted status delete_batch assert_batch_exists
missing_raises b e unlinks s missing = (
  rw (missing, ◌>>=◌),
  rw (missing, ◌>>=◌),
  rw (missing, ◌>>=◌),
  rw (missing, ◌>>=◌),
  rw (missing, ◌>>=◌),
)

pub new_batch_missing :
    (b : ℕ) (s : Scratch)
    → IsMissing b s
    → new_batch b s
      ≡ returns true (
          insert b
            (record { status_file = some "waiting"; files = [] })
            (insert b (record { status_file = none; files = [] }) s))
unfolding new_batch
new_batch_missing b s missing =
    let made : BatchDir = record { status_file = none; files = [] } in
    rw (
      missing_exists b s missing,
      change_status_found b waiting (insert b made s) made (lookup_same b made s),
      ◌>>=◌,
    )

pub new_batch_found :
    (b : ℕ) (s : Scratch) (d : BatchDir) → lookup b s ≡ some d → new_batch b s ≡ returns false s
unfolding new_batch
new_batch_found b s d found = rw (found_exists b s d found)

-- `new_batch` on a batch that has no directory returns `true` and makes one whose status is
-- `waiting`. A second `new_batch` of it returns `false` and changes nothing. The directory of any
-- other batch is as before.
pub new_batch-waiting :
    (b c : ℕ) (s : Scratch)
    → IsMissing b s
    → (c == b) ≡ false
    → (new_batch b s ≡ returns true (after (new_batch b s)))
      × (status_enum b (after (new_batch b s)) ≡ returns waiting (after (new_batch b s)))
      × (new_batch b (after (new_batch b s)) ≡ returns false (after (new_batch b s)))
      × (lookup c (after (new_batch b s)) ≡ lookup c s)
new_batch-waiting b c s missing other =
    let made : BatchDir = record { status_file = none; files = [] } in
    let written : BatchDir = record { status_file = some "waiting"; files = [] } in
    let s1 : Scratch = insert b made s in
    rw (new_batch_missing b s missing) (
      refl,
      status_enum-HasStatus b waiting (insert b written s1)
          (written, lookup_same b written s1, refl),
      new_batch_found b (insert b written s1) written (lookup_same b written s1),
      lookup_other b c written s1 other ∙ lookup_other b c made s other,
    )

pub status-HasStatus :
    (b : ℕ) (e : BatchStatusEnum) (s : Scratch)
    → HasStatus b e s
    → status b s
      ≡ returns
          (record {
            batch_id = b;
            status = e;
            has_results_dir = results_dir e;
            has_combined_results = combined_results e;
          })
          s
unfolding status assert_batch_exists
status-HasStatus b e s (d, found, text) =
    rw (found, ◌>>=◌, status_enum-HasStatus b e s (d, found, text), ◌>>=◌)

pub delete_batch_found :
    (b : ℕ) (unlinks : String → Bool) (s : Scratch) (d : BatchDir)
    → lookup b s ≡ some d
    → delete_batch unlinks b s
      ≡ returns
          (record {
            batch_id = b;
            status = deleted;
            has_results_dir = true;
            has_combined_results = false;
          })
          (insert b
            (record { status_file = some "deleted"; files = leftovers unlinks d.files })
            (insert b (record d { status_file = some "deleted" }) s))
unfolding delete_batch clear_files assert_batch_exists
delete_batch_found b unlinks s d found =
    let marked : BatchDir = record d { status_file = some "deleted" } in
    let cleared : BatchDir = record {
      status_file = some "deleted";
      files = leftovers unlinks d.files;
    } in
    let s1 : Scratch = insert b marked s in
    rw (
      change_status_found b deleted s d found,
      ◌>>=◌,
      lookup_same b marked s,
      ◌>>=◌,
      status-HasStatus b deleted (insert b cleared s1) (cleared, lookup_same b cleared s1, refl),
    )

-- `delete_batch` on an existing batch returns the status `deleted`, with a results directory and
-- no combined results. `is_deleted` then holds, the directory stays with the files that could not
-- be unlinked, and the directory of any other batch is as before.
pub delete_batch-deleted :
    (b c : ℕ) (unlinks : String → Bool) (s : Scratch) (d : BatchDir)
    → lookup b s ≡ some d
    → (c == b) ≡ false
    → (delete_batch unlinks b s
        ≡ returns
            (record {
              batch_id = b;
              status = deleted;
              has_results_dir = true;
              has_combined_results = false;
            })
            (after (delete_batch unlinks b s)))
      × (is_deleted b (after (delete_batch unlinks b s))
          ≡ returns true (after (delete_batch unlinks b s)))
      × (lookup b (after (delete_batch unlinks b s))
          ≡ some (record { status_file = some "deleted"; files = leftovers unlinks d.files }))
      × (lookup c (after (delete_batch unlinks b s)) ≡ lookup c s)
unfolding is_deleted
delete_batch-deleted b c unlinks s d found other =
    let marked : BatchDir = record d { status_file = some "deleted" } in
    let cleared : BatchDir = record {
      status_file = some "deleted";
      files = leftovers unlinks d.files;
    } in
    let s1 : Scratch = insert b marked s in
    rw (delete_batch_found b unlinks s d found) (
      refl,
      rw (
        status_enum-HasStatus b deleted (insert b cleared s1)
            (cleared, lookup_same b cleared s1, refl),
        ◌>>=◌,
      ),
      lookup_same b cleared s1,
      lookup_other b c cleared s1 other ∙ lookup_other b c marked s other,
    )
