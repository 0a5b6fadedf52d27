-- ===== src/BatchStatus/Deletion.antt =====
-- batchkit/batch_status.py and batchkit/orchestrator.py: the status `deleted` under the other writers.
use batch_processing_kit.Prelude.{
  ℕ, ◌≡◌, refl, inl, inr, Bool, true, false, List, [], ◌∷◌, some, String, if◌then◌else◌, ◌==◌,
  nat_eq, Bool-cases, Option-cases, ◌∙◌, ap, sym, subst,
}
use batch_processing_kit.Prelude.Dict.{lookup}
use batch_processing_kit.BatchStatus.{
  BatchStatusEnum, waiting, running, done, deleted, Scratch, Result, returns, raises, after, ◌>>=◌,
  ◌>>◌, return, change_status_enum, status_enum, is_deleted, is_deleted_enum, new_batch,
  delete_batch, leftovers, assert_batch_exists, by_name,
}
use batch_processing_kit.BatchStatus.Lifecycle.{
  HasStatus, status_enum-HasStatus, lookup_same, lookup_other, change_status_found,
  delete_batch_found, new_batch_missing, new_batch_found, missing_raises,
}
use batch_processing_kit.BatchStatus.Master.{
  announce, conclude, Touch, creates, announces, concludes, deletes, touch, touch_all,
}

pub is_deleted-HasStatus :
    (b : ℕ) (e : BatchStatusEnum) (s : Scratch)
    → HasStatus b e s
    → is_deleted b s ≡ returns (is_deleted_enum e) s
unfolding is_deleted
is_deleted-HasStatus b e s h = rw (status_enum-HasStatus b e s h, ◌>>=◌)

-- A read returns or raises, and leaves the directory as it is.
abbrev Reads : Scratch → Result Bool → Type 0
Reads s (returns g s') = s' ≡ s
Reads s (raises x s') = s' ≡ s

is_deleted-Reads : (c : ℕ) (s : Scratch) → Reads s (is_deleted c s)
unfolding is_deleted status_enum assert_batch_exists
is_deleted-Reads c s = elim (Option-cases (lookup c s)) [
  | inl missing ↦ rw (missing, ◌>>=◌) refl
  | inr (d, found) ↦ elim (Option-cases d.status_file) [
    | inl none_there ↦ rw (found, ◌>>=◌, none_there) refl
    | inr (t, text) ↦ elim (Option-cases (by_name t)) [
      | inl unknown ↦ rw (found, ◌>>=◌, text, unknown) refl
      | inr (e, known) ↦ rw (found, ◌>>=◌, text, known) refl
    ]
  ]
]

after_result {ℓ κ} :
    {A : Type ℓ} {B : Type κ} (v : B) (s : Scratch) (r : Result A)
    → after (((λ (x : Scratch). r) >> return v) s) ≡ after r
after_result v s (returns a s') = refl
after_result v s (raises x s') = refl

module _ (b c : ℕ) (s : Scratch) (other : (b == c) ≡ false) where
  change_status_kept :
      (e : BatchStatusEnum) → lookup b (after (change_status_enum c e s)) ≡ lookup b s
  change_status_kept e = elim (Option-cases (lookup c s)) [
    | inl missing ↦ rw ((missing_raises c e (λ f. true) s missing).0)
    | inr (d, found) ↦ rw (change_status_found c e s d found) (lookup_other c b _ s other)
  ]

  pub delete_batch_kept :
      (unlinks : String → Bool) → lookup b (after (delete_batch unlinks c s)) ≡ lookup b s
  delete_batch_kept unlinks = elim (Option-cases (lookup c s)) [
    | inl missing ↦ rw ((missing_raises c waiting unlinks s missing).4)
    | inr (d, found) ↦
        rw (delete_batch_found c unlinks s d found)
          (lookup_other c b _ _ other ∙ lookup_other c b _ s other)
  ]

  pub new_batch_kept : lookup b (after (new_batch c s)) ≡ lookup b s
  new_batch_kept = elim (Option-cases (lookup c s)) [
    | inl missing ↦
        rw (new_batch_missing c s missing) (lookup_other c b _ _ other ∙ lookup_other c b _ s other)
    | inr (d, found) ↦ rw (new_batch_found c s d found)
  ]

  then_kept {ℓ} :
      {A : Type ℓ} (k : Bool → Scratch → Result A) (r : Result Bool)
      → Reads s r
      → ((g : Bool) → lookup b (after (k g s)) ≡ lookup b s)
      → lookup b (after (((λ (x : Scratch). r) >>= k) s)) ≡ lookup b s
  then_kept k (returns g s') same keeps = ap (λ x. lookup b (after (k g x))) same ∙ keeps g
  then_kept k (raises x s') same keeps = ap (lookup b) same

  announce_kept : lookup b (after (announce c s)) ≡ lookup b s
  unfolding announce
  announce_kept = then_kept _ (is_deleted c s) (is_deleted-Reads c s) each
    where
      each :
          (g : Bool)
          → lookup b (
              after ((if g then return true else (change_status_enum c running >> return false)) s))
            ≡ lookup b s
      each true = refl
      each false =
          ap (lookup b) (after_result false s (change_status_enum c running s))
          ∙ change_status_kept running

  conclude_kept : (unlinks : String → Bool) → lookup b (after (conclude unlinks c s)) ≡ lookup b s
  unfolding conclude
  conclude_kept unlinks = then_kept _ (is_deleted c s) (is_deleted-Reads c s) each
    where
      each :
          (g : Bool)
          → lookup b (
              after (
                (if g then (delete_batch unlinks c >> return tt) else change_status_enum c done) s))
            ≡ lookup b s
      each true =
          ap (lookup b) (after_result (tt {0}) s (delete_batch unlinks c s))
          ∙ delete_batch_kept unlinks
      each false = change_status_kept done

pub HasStatus-kept :
    (b : ℕ) (e : BatchStatusEnum) (s s' : Scratch)
    → lookup b s' ≡ lookup b s
    → HasStatus b e s
    → HasStatus b e s'
HasStatus-kept b e s s' same (d, found, text) = (d, same ∙ found, text)

module _ (b : ℕ) (s : Scratch) (gone : HasStatus b deleted s) where
  delete_batch_own :
      (unlinks : String → Bool) → HasStatus b deleted (after (delete_batch unlinks b s))
  delete_batch_own unlinks =
      let (d, found, text) = gone in
      rw (delete_batch_found b unlinks s d found) (
        record { status_file = some "deleted"; files = leftovers unlinks d.files },
        lookup_same b _ _,
        refl,
      )

  new_batch_own : HasStatus b deleted (after (new_batch b s))
  new_batch_own = let (d, found, text) = gone in rw (new_batch_found b s d found) gone

  pub announce_own : HasStatus b deleted (after (announce b s))
  unfolding announce
  announce_own = rw (is_deleted-HasStatus b deleted s gone, ◌>>=◌) gone

  pub conclude_own : (unlinks : String → Bool) → HasStatus b deleted (after (conclude unlinks b s))
  unfolding conclude
  conclude_own unlinks =
      rw (is_deleted-HasStatus b deleted s gone, ◌>>=◌)
        (subst (HasStatus b deleted) (sym (after_result (tt {0}) s (delete_batch unlinks b s)))
          (delete_batch_own unlinks))

  -- One write by anybody, to any batch.
  by_batch :
      (step : ℕ → Scratch)
      → HasStatus b deleted (step b)
      → ((c : ℕ) → (b == c) ≡ false → lookup b (step c) ≡ lookup b s)
      → (c : ℕ) → HasStatus b deleted (step c)
  by_batch step own others c = elim (Bool-cases (b == c)) [
    | inl same ↦ subst (λ x. HasStatus b deleted (step x)) ((nat_eq.beq_iff b c).0 same) own
    | inr other ↦ HasStatus-kept b deleted s (step c) (others c other) gone
  ]

  touch_deleted : (t : Touch) → HasStatus b deleted (touch t s)
  unfolding touch
  touch_deleted (creates c) =
      by_batch (λ x. after (new_batch x s)) new_batch_own (λ x h. new_batch_kept b x s h) c
  touch_deleted (announces c) =
      by_batch (λ x. after (announce x s)) announce_own (λ x h. announce_kept b x s h) c
  touch_deleted (concludes unlinks c) =
      by_batch (λ x. after (conclude unlinks x s)) (conclude_own unlinks)
        (λ x h. conclude_kept b x s h unlinks) c
  touch_deleted (deletes unlinks c) =
      by_batch (λ x. after (delete_batch unlinks x s)) (delete_batch_own unlinks)
        (λ x h. delete_batch_kept b x s h unlinks) c

-- A batch whose status on file is `deleted` keeps it through any sequence of creations, of
-- announcements and conclusions by the master thread, and of deletions, of any batches.
pub deletion-HasStatus :
    (ts : List Touch) (b : ℕ) (s : Scratch)
    → HasStatus b deleted s
    → HasStatus b deleted (touch_all ts s)
unfolding touch_all
deletion-HasStatus [] b s gone = gone
deletion-HasStatus (t ∷ ts) b s gone =
    deletion-HasStatus ts b (touch t s) (touch_deleted b s gone t)

-- For a batch whose status on file is a valid one, the master thread's conclusion leaves it
-- `deleted` if it was, and otherwise makes it `done`.
pub conclude-status_enum :
    (b : ℕ) (e : BatchStatusEnum) (unlinks : String → Bool) (s : Scratch)
    → HasStatus b e s
    → status_enum b (after (conclude unlinks b s))
      ≡ returns (if is_deleted_enum e then deleted else done) (after (conclude unlinks b s))
unfolding conclude
conclude-status_enum b e unlinks s h = elim (Bool-cases (is_deleted_enum e)) [
  | inl gone ↦
      let (d, found, text) = h in
      rw (is_deleted-HasStatus b e s h, ◌>>=◌, gone, delete_batch_found b unlinks s d found, ◌>>=◌)
        (status_enum-HasStatus b deleted _ (
          record { status_file = some "deleted"; files = leftovers unlinks d.files },
          lookup_same b _ _,
          refl,
        ))
  | inr kept ↦
      let (d, found, text) = h in
      rw (is_deleted-HasStatus b e s h, ◌>>=◌, kept, change_status_found b done s d found)
        (status_enum-HasStatus b done _
          (record d { status_file = some "done" }, lookup_same b _ s, refl))
]
