-- ===== src/Files/Atomic.antt =====
-- batchkit/utils.py: an atomic write, on a disk whose operations may fail or break off.
use batch_processing_kit.Prelude.{
  ℕ, zero, suc, ◌≡◌, refl, ap, sym, false, List, [], ◌∷◌, some, String, ◌==◌, string_eq, arith,
  Bool-cases, inl, inr, ◌⊎◌, ◌∙◌,
}
use batch_processing_kit.Prelude.Dict.{
  contains, lookup, insert, erase, keys, lookup-insert, lookup-erase_ne,
}
use batch_processing_kit.Files.Disk.{
  Disk, Io, does, os_error, Fault, passes, refuses, breaks_off, attempt, attempt_whole, write_text,
  copy_text, copyfile, renamed, and_then, unlink, move_file, move_retries, cleaned, abandon,
  write_json_file_atomic,
}

-- What a write of `text` to `json` leaves: the text there if it returns, and what was there before if it
-- raises, unless the temporary file is on another device; and at another path what was there before.
abbrev pub IsAtomic : Disk → String → String → String → String → Io → Type 0
IsAtomic d0 tmp json text path (does d) =
    (lookup json d.files ≡ some text) × (lookup path d.files ≡ lookup path d0.files)
IsAtomic d0 tmp json text path (os_error d) =
    ((d0.same_device tmp json ≡ false) ⊎ (lookup json d.files ≡ lookup json d0.files))
    × (lookup path d.files ≡ lookup path d0.files)

apart : (a b : String) → (a == b) ≡ false → (b == a) ≡ false
apart a b h = ground (arith, string_eq.beq_iff a b, string_eq.beq_iff b a)

insert_same :
    (path text : String) (files : List (String × String))
    → lookup path (insert path text files) ≡ some text
insert_same path text files =
    ground (arith, lookup-insert path path text files, string_eq.beq_iff path path)

insert_other :
    (path other text : String) (files : List (String × String))
    → (other == path) ≡ false
    → lookup other (insert path text files) ≡ lookup other files
insert_other path other text files h =
    rw (lookup-insert path other text files, apart other path h) refl

-- What holds of every outcome of an operation.
attempt-cases {ℓ} :
    (P : Io → Type ℓ) (new : List (String × String)) (torn : String → List (String × String))
    (d : Disk) (faults : List Fault)
    → ((later : List Fault) → P (does (record d { files = new; faults = later })))
    → ((later : List Fault) → P (os_error (record d { faults = later })))
    → ((part : String) (later : List Fault)
        → P (os_error (record d { files = torn part; faults = later })))
    → P (attempt new torn d faults)
attempt-cases P new torn d [] passed refused tore = passed []
attempt-cases P new torn d (passes ∷ faults) passed refused tore = passed faults
attempt-cases P new torn d (refuses ∷ faults) passed refused tore = refused faults
attempt-cases P new torn d (breaks_off part ∷ faults) passed refused tore = tore part faults

unlink-cases {ℓ} :
    (P : Io → Type ℓ) (path : String) (d : Disk)
    → ((later : List Fault) → P (does (record d { files = erase path d.files; faults = later })))
    → ((later : List Fault) → P (os_error (record d { faults = later })))
    → P (unlink path d)
unfolding unlink
unlink-cases P path d passed refused = elim (Bool-cases (contains path (keys d.files))) [
  | inl there ↦ rw there (
      attempt-cases P (erase path d.files) (λ part. d.files) d d.faults passed refused
        (λ part later. refused later))
  | inr gone ↦ rw gone (refused d.faults)
]

module _ (tmp json text path : String) (d0 : Disk) (nj : (json == tmp) ≡ false)
    (np : (path == tmp) ≡ false) (nq : (path == json) ≡ false) where
  -- The disk before each round of the loop.
  record Before (d : Disk) : Type 0 where
    device : d.same_device ≡ d0.same_device
    temporary : lookup tmp d.files ≡ some text
    target : (d0.same_device tmp json ≡ false) ⊎ (lookup json d.files ≡ lookup json d0.files)
    other : lookup path d.files ≡ lookup path d0.files

  abbrev AfterMove : Io → Type 0
  AfterMove (does d) =
      (lookup json d.files ≡ some text) × (lookup path d.files ≡ lookup path d0.files)
  AfterMove (os_error d) = Before d

  abbrev with_faults : Disk → List Fault → Disk
  with_faults d later = record d { faults = later }

  later-Before : (d : Disk) (later : List Fault) → Before d → Before (with_faults d later)
  later-Before d later h = record {
    device = h.device;
    temporary = h.temporary;
    target = h.target;
    other = h.other;
  }

  renames-AfterMove :
      (d : Disk)
      → Before d
      → AfterMove (attempt (insert json text (erase tmp d.files)) (λ part. d.files) d d.faults)
  renames-AfterMove d h =
      attempt-cases AfterMove (insert json text (erase tmp d.files)) (λ part. d.files) d d.faults
        (λ later. (
          insert_same json text (erase tmp d.files),
          insert_other json path text (erase tmp d.files) nq
              ∙ lookup-erase_ne tmp path d.files (apart path tmp np)
              ∙ h.other,
        ))
        (λ later. later-Before d later h) (λ part later. later-Before d later h)

  -- A copy that broke off or went through, on another device.
  copied-Before :
      (d : Disk) (part : String) (later : List Fault)
      → d0.same_device tmp json ≡ false
      → Before d
      → Before (record d { files = insert json part d.files; faults = later })
  copied-Before d part later far h = record {
    device = h.device;
    temporary = insert_other json tmp part d.files (apart json tmp nj) ∙ h.temporary;
    target = inl far;
    other = insert_other json path part d.files nq ∙ h.other;
  }

  copies-AfterMove :
      (d : Disk)
      → d0.same_device tmp json ≡ false
      → Before d
      → AfterMove (and_then (write_text json text d) (unlink tmp))
  unfolding write_text
  copies-AfterMove d far h =
      attempt-cases (λ x. AfterMove (and_then x (unlink tmp))) (insert json text d.files)
        (λ part. insert json part d.files) d d.faults
        (λ later.
          unlink-cases AfterMove tmp (record d { files = insert json text d.files; faults = later })
            (λ later'. (
              lookup-erase_ne tmp json (insert json text d.files) (apart json tmp nj)
                  ∙ insert_same json text d.files,
              lookup-erase_ne tmp path (insert json text d.files) (apart path tmp np)
                  ∙ insert_other json path text d.files nq
                  ∙ h.other,
            ))
            (λ later'. copied-Before d text later' far h))
        (λ later. later-Before d later h) (λ part later. copied-Before d part later far h)

  move_file-AfterMove : (d : Disk) → Before d → AfterMove (move_file tmp json d)
  unfolding move_file copyfile
  move_file-AfterMove d h = elim (Bool-cases (d.same_device tmp json)) [
    | inl near ↦ rw (near, renamed, h.temporary, attempt_whole) (renames-AfterMove d h)
    | inr far ↦
        rw (far, h.temporary, copy_text)
          (copies-AfterMove d (ap (λ f. f tmp json) (sym h.device) ∙ far) h)
  ]

  abandoned-IsAtomic :
      (d : Disk) → Before d → IsAtomic d0 tmp json text path (cleaned (unlink tmp d))
  abandoned-IsAtomic d h =
      unlink-cases (λ x. IsAtomic d0 tmp json text path (cleaned x)) tmp d
        (λ later.
          (target_kept h.target, lookup-erase_ne tmp path d.files (apart path tmp np) ∙ h.other))
        (λ later. (h.target, h.other))
    where
      target_kept :
          (d0.same_device tmp json ≡ false) ⊎ (lookup json d.files ≡ lookup json d0.files)
          → (d0.same_device tmp json ≡ false)
            ⊎ (lookup json (erase tmp d.files) ≡ lookup json d0.files)
      target_kept (inl far) = inl far
      target_kept (inr same) = inr (lookup-erase_ne tmp json d.files (apart json tmp nj) ∙ same)

  retries-IsAtomic :
      (n : ℕ) (d : Disk)
      → Before d
      → IsAtomic d0 tmp json text path (abandon tmp (move_retries n tmp json d))
  unfolding move_retries
  retries-IsAtomic zero d h = abandoned-IsAtomic d h
  retries-IsAtomic (suc n) d h =
      moved (move_file tmp json d) (move_file-AfterMove d h) (λ d. retries-IsAtomic n d)
    where
      moved :
          (x : Io)
          → AfterMove x
          → ((d : Disk)
              → Before d
              → IsAtomic d0 tmp json text path (abandon tmp (move_retries n tmp json d)))
          → IsAtomic d0 tmp json text path (
              abandon tmp (elim x [ does d' ↦ does d' | os_error d' ↦ move_retries n tmp json d' ]))
      moved (does d') end next = end
      moved (os_error d') before next = next d' before

-- Whatever operations fail or break off, a write returns with its text in the file, or raises; a write
-- that raises leaves the file as it was if the temporary file is on its device. No other path but
-- the temporary file's changes.
pub write_json_file_atomic-IsAtomic :
    (n : ℕ) (tmp json text path : String) (d : Disk)
    → (json == tmp) ≡ false
    → (path == tmp) ≡ false
    → (path == json) ≡ false
    → IsAtomic d tmp json text path (write_json_file_atomic n tmp json text d)
unfolding write_json_file_atomic write_text
write_json_file_atomic-IsAtomic n tmp json text path d nj np nq =
    attempt-cases
      (λ x.
        IsAtomic d tmp json text path (and_then x (λ d'. abandon tmp (move_retries n tmp json d'))))
      (insert tmp text d.files) (λ part. insert tmp part d.files) d d.faults
      (λ later.
        retries-IsAtomic tmp json text path d nj np nq n
          (record d { files = insert tmp text d.files; faults = later })
          (record {
            device = refl;
            temporary = insert_same tmp text d.files;
            target = inr (insert_other tmp json text d.files nj);
            other = insert_other tmp path text d.files np;
          }))
      (λ later. (inr refl, refl))
      (λ part later.
        (inr (insert_other tmp json part d.files nj), insert_other tmp path part d.files np))
