-- ===== src/Client/Sync.antt =====
-- batchkit/client.py: _do_batch_sync, which waits for one batch and moves its results.
use batch_processing_kit.Prelude.{
  ℕ, zero, suc, ◌+◌, ◌≡◌, refl, ap, Bool, true, false, ◌&&◌, ◌||◌, List, [], ◌∷◌, String,
  if◌then◌else◌, nat_eq, ◌==◌, string_eq, arith, Bool-cases, inl, inr, ◌∙◌,
}
use batch_processing_kit.BatchStatus.{BatchStatusEnum, waiting, done, deleted}
use batch_processing_kit.Files.{OsPath}
use batch_processing_kit.Files.Disk.{Disk, Io, does, os_error, Move, move_files}

-- What the client sees after its n-th watch: the batch's status, whether the orchestrator was alive
-- before it, and the names of the files in the results directory.
pub record Seen : Type 0 where
  pub status : BatchStatusEnum
  pub is_alive : Bool
  pub listing : List String

pub data Synced : Type 0 where
  finished : Disk → Synced
  assertion_failed : Disk → Synced
  type_error : Disk → Synced
  still_waiting : Disk → Synced

abbrev pub is_done : BatchStatusEnum → Bool
is_done done = true
is_done e = false

-- `move_files` of the .json files from the results directory to the output folder.
abbrev pub json_move : String → String → Bool → Move
json_move results_dir output_folder allow_fail = record {
  src_dir = results_dir;
  targ_dir = output_folder;
  extension = ".json";
  exclude = [];
  copy_only = [];
  allow_fail = allow_fail;
}

abbrev is_waiting : BatchStatusEnum → Bool
is_waiting waiting = true
is_waiting e = false

abbrev has_json : OsPath → List String → Bool
has_json p [] = false
has_json p (f ∷ names) = (p.splitext f).1 == ".json" || has_json p names

-- A batch that waits has no results directory: the listing is that of the working directory, and a
-- .json file there is joined to None, which is a TypeError.
abbrev pub is_stray : OsPath → Seen → Bool
is_stray p s = is_waiting s.status && has_json p s.listing

abbrev pub disk_of : Io → Disk
disk_of (does d) = d
disk_of (os_error d) = d

module _ (p : OsPath) (results_dir output_folder : String) where
  -- The final move is tried 15 times at most.
  unfoldable pub final_move : ℕ → List String → Disk → Disk
  final_move zero names d = d
  final_move (suc tries) names d =
      elim (move_files p (json_move results_dir output_folder false) names d) [
        | does d' ↦ d'
        | os_error d' ↦ final_move tries names d'
      ]

  abbrev interim_move : List String → Disk → Disk
  interim_move names d = disk_of (move_files p (json_move results_dir output_folder true) names d)

  -- The loop and the final move, from a status and the number of watches before it. Its time is
  -- bounded by fuel.
  unfoldable pub do_batch_sync : (ℕ → Seen) → ℕ → ℕ → BatchStatusEnum → Disk → Synced
  do_batch_sync seen i zero status d =
      if is_done status then finished (final_move 15 (seen i).listing d) else still_waiting d
  do_batch_sync seen i (suc fuel) status d =
      let next =
        do_batch_sync seen (suc i) fuel (seen i).status (interim_move (seen i).listing d) in
      if is_done status
      then finished (final_move 15 (seen i).listing d)
      else if (seen i).is_alive
      then (if is_stray p (seen i) then type_error d else next)
      else assertion_failed d

  -- How the loop can end.
  abbrev pub IsFinished : Synced → Type 0
  IsFinished s = (d : Disk) × (s ≡ finished d)

  do_batch_sync_from :
      (seen : ℕ → Seen) (n i k : ℕ) (status : BatchStatusEnum) (d : Disk)
      → ((j : ℕ) → (seen j).is_alive ≡ true)
      → ((j : ℕ) → is_stray p (seen j) ≡ false)
      → i + n ≡ k
      → (seen k).status ≡ done
      → IsFinished (do_batch_sync seen i (suc n) status d)
  unfolding do_batch_sync
  do_batch_sync_from seen zero i k status d alive calm here last =
      elim (Bool-cases (is_done status)) [
        | inl ready ↦ (final_move 15 (seen i).listing d, rw ready refl)
        | inr waits ↦
            let now : (seen i).status ≡ done =
              ap (λ (x : ℕ). (seen x).status) (omega (arith, here)) ∙ last in
            (
              final_move 15 (seen (suc i)).listing (interim_move (seen i).listing d),
              rw (waits, alive i, calm i, now) refl,
            )
      ]
  do_batch_sync_from seen (suc n) i k status d alive calm here last =
      elim (Bool-cases (is_done status)) [
        | inl ready ↦ (final_move 15 (seen i).listing d, rw ready refl)
        | inr waits ↦
            let (d', e) =
              do_batch_sync_from seen n (suc i) k (seen i).status (interim_move (seen i).listing d)
                alive calm (omega (arith, here)) last in
            (d', rw (waits, alive i, calm i) e)
      ]

  never_done :
      (seen : ℕ → Seen) (fuel i : ℕ) (status : BatchStatusEnum) (d : Disk)
      → ((k : ℕ) → (seen k).status ≡ deleted)
      → ((k : ℕ) → (seen k).is_alive ≡ true)
      → is_done status ≡ false
      → (d' : Disk) × (do_batch_sync seen i fuel status d ≡ still_waiting d')
  unfolding do_batch_sync
  never_done seen zero i status d gone alive h = (d, rw h refl)
  never_done seen (suc fuel) i status d gone alive h =
      let (d', e) =
        never_done seen fuel (suc i) (seen i).status (interim_move (seen i).listing d) gone alive
          (rw (gone i) refl) in
      let calm : is_stray p (seen i) ≡ false = rw (gone i) refl in (d', rw (h, alive i, calm) e)

  -- While the orchestrator is alive, no round of a waiting batch finds a .json file in the working
  -- directory, and a watch answers `done`, the client ends: within one round more than the watches up
  -- to that one.
  pub do_batch_sync_ends :
      (seen : ℕ → Seen) (n : ℕ) (d : Disk)
      → ((j : ℕ) → (seen j).is_alive ≡ true)
      → ((j : ℕ) → is_stray p (seen j) ≡ false)
      → (seen n).status ≡ done
      → IsFinished (do_batch_sync seen 0 (suc n) waiting d)
  do_batch_sync_ends seen n d alive calm last =
      do_batch_sync_from seen n 0 n waiting d alive calm (omega arith) last

  -- Of a batch that is deleted while the client waits, whose status stays `deleted`, it waits forever,
  -- as long as the orchestrator is alive: no number of rounds is enough.
  pub do_batch_sync-deleted :
      (seen : ℕ → Seen) (rounds : ℕ) (d : Disk)
      → ((k : ℕ) → (seen k).status ≡ deleted)
      → ((k : ℕ) → (seen k).is_alive ≡ true)
      → (d' : Disk) × (do_batch_sync seen 0 rounds waiting d ≡ still_waiting d')
  do_batch_sync-deleted seen rounds d gone alive =
      never_done seen rounds 0 waiting d gone alive refl
