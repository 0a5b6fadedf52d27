-- ===== src/Master/Turns.antt =====
-- batchkit/orchestrator.py: what the other threads' turns leave of one batch while the master thread
-- is at work on it (batchkit/batch_status.py, batchkit/apiserver.py).
use batch_processing_kit.Prelude.{
  ℕ, ◌≡◌, refl, inl, inr, Bool, false, List, [], ◌∷◌, some, String, ◌==◌, nat_eq, string_eq,
  Bool-cases, ap, ◌∙◌, subst,
}
use batch_processing_kit.Prelude.Dict.{lookup}
use batch_processing_kit.BatchStatus.{
  BatchStatusEnum, deleted, after, Scratch, new_batch, delete_batch, leftovers,
}
use batch_processing_kit.BatchStatus.Lifecycle.{
  HasStatus, lookup_same, delete_batch_found, new_batch_found,
}
use batch_processing_kit.BatchStatus.Deletion.{HasStatus-kept, new_batch_kept, delete_batch_kept}
use batch_processing_kit.Master.{Setting, World, clear_texts, cleared, is_cleared}

-- A file in the directory of another batch is not cleared.
clear_texts_other :
    (c : Setting) (unlinks : String → Bool) (b other : ℕ) (path name : String)
    (files : List (String × String))
    → c.file_of path ≡ some (b, name)
    → (b == other) ≡ false
    → lookup path (clear_texts c unlinks other files) ≡ lookup path files
unfolding clear_texts lookup
clear_texts_other c unlinks b other path name [] own differs = refl
clear_texts_other c unlinks b other path name ((p, text) ∷ files) own differs =
    let ih = clear_texts_other c unlinks b other path name files own differs in
    elim (Bool-cases (p == path)) [
      | inl same ↦
          let here : c.file_of p ≡ some (b, name) =
            ap c.file_of ((string_eq.beq_iff p path).0 same) ∙ own in
          rw (here, differs, same)
      | inr another ↦ elim (Bool-cases (is_cleared unlinks other (c.file_of p))) [
        | inl goes ↦ rw (goes, another, ih)
        | inr stays ↦ rw (stays, another, ih)
      ]
    ]

delete_batch-HasStatus :
    (b : ℕ) (e : BatchStatusEnum) (unlinks : String → Bool) (s : Scratch)
    → HasStatus b e s
    → HasStatus b deleted (after (delete_batch unlinks b s))
delete_batch-HasStatus b e unlinks s (d, found, text) =
    rw (delete_batch_found b unlinks s d found) (
      record { status_file = some "deleted"; files = leftovers unlinks d.files },
      lookup_same b _ _,
      refl,
    )

-- After a turn a batch is deleted, or it has its status and its file `path` what it had.
pub data Moved (path : String) (b : ℕ) (e : BatchStatusEnum) (w w' : World) : Type 0 where
  gone : HasStatus b deleted w'.scratch → Moved path b e w w'
  kept :
      HasStatus b e w'.scratch
      → lookup path w'.disk.files ≡ lookup path w.disk.files
      → Moved path b e w w'

module _ (c : Setting) (b : ℕ) (path name : String) (own : c.file_of path ≡ some (b, name)) where
  pub deletes-Moved :
      (unlinks : String → Bool) (other : ℕ) (e : BatchStatusEnum) (w : World)
      → HasStatus b e w.scratch
      → Moved path b e w (record w {
        scratch = after (delete_batch unlinks other w.scratch);
        disk = cleared c unlinks other w.disk;
      })
  deletes-Moved unlinks other e w h = elim (Bool-cases (b == other)) [
    | inl same ↦ gone (
        subst (λ x. HasStatus b deleted (after (delete_batch unlinks x w.scratch)))
          ((nat_eq.beq_iff b other).0 same) (delete_batch-HasStatus b e unlinks w.scratch h))
    | inr differs ↦
        kept
          (HasStatus-kept b e w.scratch _ (delete_batch_kept b other w.scratch differs unlinks) h)
          (clear_texts_other c unlinks b other path name w.disk.files own differs)
  ]

  pub creates-Moved :
      (other : ℕ) (e : BatchStatusEnum) (w : World)
      → HasStatus b e w.scratch
      → Moved path b e w (record w { scratch = after (new_batch other w.scratch) })
  creates-Moved other e w h =
      let (d, found, text) = h in
      elim (Bool-cases (b == other)) [
        | inl same ↦
            kept
              (subst (λ x. HasStatus b e (after (new_batch x w.scratch)))
                ((nat_eq.beq_iff b other).0 same) (rw (new_batch_found b w.scratch d found) h))
              refl
        | inr differs ↦
            kept (HasStatus-kept b e w.scratch _ (new_batch_kept b other w.scratch differs) h) refl
      ]
