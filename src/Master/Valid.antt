-- ===== src/Master/Valid.antt =====
-- batchkit/orchestrator.py: what holds of a batch and its combined results at each stage of a round of
-- the master thread.
use batch_processing_kit.Prelude.{
  ℕ, ◌≡◌, refl, ◌⊎◌, inl, inr, Bool, true, false, String, some, nat_eq, string_eq, ap, sym, ◌∙◌,
}
use batch_processing_kit.BatchStatus.{BatchStatusEnum, done, deleted, Scratch}
use batch_processing_kit.BatchStatus.Lifecycle.{HasStatus, status_enum-HasStatus}
use batch_processing_kit.Prelude.Dict.{lookup}
use batch_processing_kit.Master.{
  World, Stage, checking, swapping, starting, announcing, canceling, awaiting, rechecking,
  summarizing, combining, concluding, closing, ready, stopped, died,
}
use batch_processing_kit.Master.Turns.{Moved, gone, kept}

abbrev pub reads_done : BatchStatusEnum → Bool
reads_done done = true
reads_done _ = false

-- The batch is not done yet.
abbrev pub Pending : ℕ → Scratch → Type 0
Pending b s = (e : BatchStatusEnum) × HasStatus b e s × (reads_done e ≡ false)

-- The batch is deleted, or its combined results are there with a text for which `Q` holds.
abbrev pub HasResults : (String → Type 0) → String → World → Type 0
HasResults Q path w = (text : String) × (lookup path w.disk.files ≡ some text) × Q text

abbrev pub Kept : (String → Type 0) → String → ℕ → World → Type 0
Kept Q path b w =
    (e : BatchStatusEnum) × HasStatus b e w.scratch × ((e ≡ deleted) ⊎ HasResults Q path w)

-- What holds at each stage of the round.
abbrev pub Valid : (String → Type 0) → String → ℕ → Stage × World → Type 0
Valid Q path b (concluding, w) = Pending b w.scratch × Kept Q path b w
Valid Q path b (closing, w) = Kept Q path b w
Valid Q path b (ready, w) = Pending b w.scratch ⊎ Kept Q path b w
Valid Q path b (died, w) = Pending b w.scratch ⊎ Kept Q path b w
Valid Q path b (stopped, w) = Pending b w.scratch ⊎ Kept Q path b w
Valid Q path b (summarizing true, w) = HasStatus b deleted w.scratch
Valid Q path b (combining true, w) = HasStatus b deleted w.scratch
Valid Q path b (stage, w) = Pending b w.scratch

module _ (Q : String → Type 0) (path : String) (b : ℕ) (w w' : World)
    (moves : (e : BatchStatusEnum) → HasStatus b e w.scratch → Moved path b e w w') where
  moved-HasStatus : HasStatus b deleted w.scratch → HasStatus b deleted w'.scratch
  moved-HasStatus h = elim (moves deleted h) [ gone h' ↦ h' | kept h' f ↦ h' ]

  moved-Pending : Pending b w.scratch → Pending b w'.scratch
  moved-Pending (e, h, p) = elim (moves e h) [
    | gone h' ↦ (deleted, h', refl)
    | kept h' f ↦ (e, h', p)
  ]

  moved-Kept : Kept Q path b w → Kept Q path b w'
  moved-Kept (e, h, p) = elim (moves e h) [
    | gone h' ↦ (deleted, h', inl refl)
    | kept h' f ↦
        (e, h', elim p [ inl q ↦ inl q | inr (text, found, q) ↦ inr (text, f ∙ found, q) ])
  ]

  either_moved : Pending b w.scratch ⊎ Kept Q path b w → Pending b w'.scratch ⊎ Kept Q path b w'
  either_moved (inl p) = inl (moved-Pending p)
  either_moved (inr k) = inr (moved-Kept k)

  pub moved-Valid : (stage : Stage) → Valid Q path b (stage, w) → Valid Q path b (stage, w')
  moved-Valid checking v = moved-Pending v
  moved-Valid swapping v = moved-Pending v
  moved-Valid starting v = moved-Pending v
  moved-Valid announcing v = moved-Pending v
  moved-Valid canceling v = moved-Pending v
  moved-Valid awaiting v = moved-Pending v
  moved-Valid rechecking v = moved-Pending v
  moved-Valid (summarizing true) v = moved-HasStatus v
  moved-Valid (summarizing false) v = moved-Pending v
  moved-Valid (combining true) v = moved-HasStatus v
  moved-Valid (combining false) v = moved-Pending v
  moved-Valid concluding (p, k) = (moved-Pending p, moved-Kept k)
  moved-Valid closing v = moved-Kept v
  moved-Valid ready v = either_moved v
  moved-Valid stopped v = either_moved v
  moved-Valid died v = either_moved v

same_status :
    (b : ℕ) (e e' : BatchStatusEnum) (s : Scratch) → HasStatus b e s → HasStatus b e' s → e ≡ e'
same_status b e e' s h h' = cc (status_enum-HasStatus b e s h, status_enum-HasStatus b e' s h')

Pending-not_done : (b : ℕ) (s : Scratch) → Pending b s → HasStatus b done s → ⊥
Pending-not_done b s (e, h, undone) h' =
    absurd (cc (ap reads_done (same_status b e done s h h'), undone))

Kept-HasResults :
    (Q : String → Type 0) (path : String) (b : ℕ) (w : World)
    → Kept Q path b w
    → HasStatus b done w.scratch
    → HasResults Q path w
Kept-HasResults Q path b w (e, h, inl off) d =
    absurd (cc (ap reads_done (sym off ∙ same_status b e done w.scratch h d)))
Kept-HasResults Q path b w (e, h, inr there) d = there

pub Valid-HasResults :
    (Q : String → Type 0) (path : String) (b : ℕ) (stage : Stage) (w : World)
    → Valid Q path b (stage, w)
    → HasStatus b done w.scratch
    → HasResults Q path w
Valid-HasResults Q path b concluding w (p, k) d = Kept-HasResults Q path b w k d
Valid-HasResults Q path b closing w k d = Kept-HasResults Q path b w k d
Valid-HasResults Q path b ready w (inl p) d = absurd (Pending-not_done b w.scratch p d)
Valid-HasResults Q path b ready w (inr k) d = Kept-HasResults Q path b w k d
Valid-HasResults Q path b died w (inl p) d = absurd (Pending-not_done b w.scratch p d)
Valid-HasResults Q path b died w (inr k) d = Kept-HasResults Q path b w k d
Valid-HasResults Q path b stopped w (inl p) d = absurd (Pending-not_done b w.scratch p d)
Valid-HasResults Q path b stopped w (inr k) d = Kept-HasResults Q path b w k d
Valid-HasResults Q path b (summarizing true) w h d =
    absurd (Pending-not_done b w.scratch (deleted, h, refl) d)
Valid-HasResults Q path b (combining true) w h d =
    absurd (Pending-not_done b w.scratch (deleted, h, refl) d)
Valid-HasResults Q path b (summarizing false) w p d = absurd (Pending-not_done b w.scratch p d)
Valid-HasResults Q path b (combining false) w p d = absurd (Pending-not_done b w.scratch p d)
Valid-HasResults Q path b checking w p d = absurd (Pending-not_done b w.scratch p d)
Valid-HasResults Q path b swapping w p d = absurd (Pending-not_done b w.scratch p d)
Valid-HasResults Q path b starting w p d = absurd (Pending-not_done b w.scratch p d)
Valid-HasResults Q path b announcing w p d = absurd (Pending-not_done b w.scratch p d)
Valid-HasResults Q path b canceling w p d = absurd (Pending-not_done b w.scratch p d)
Valid-HasResults Q path b awaiting w p d = absurd (Pending-not_done b w.scratch p d)
Valid-HasResults Q path b rechecking w p d = absurd (Pending-not_done b w.scratch p d)
