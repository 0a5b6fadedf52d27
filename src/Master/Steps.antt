-- ===== src/Master/Steps.antt =====
-- batchkit/orchestrator.py: the steps of the master thread keep what holds at their stages.
use batch_processing_kit.Prelude.{
  ℕ, ◌≡◌, refl, inl, inr, Bool, true, false, List, [], ◌∷◌, Option, none, some, String, arith,
  nat_eq, string_eq, Bool-cases, Option-cases, ap, sym, subst, if◌then◌else◌,
}
use batch_processing_kit.Prelude.Dict.{insert, lookup, lookup-insert}
use batch_processing_kit.BatchStatus.{
  BatchStatusEnum, waiting, running, done, deleted, Scratch, Result as StatusResult,
  returns as status_returns, raises as status_raises, after as status_after, is_deleted,
  is_deleted_enum, ◌>>=◌,
}
use batch_processing_kit.BatchStatus.Master.{announce, conclude}
use batch_processing_kit.BatchStatus.Lifecycle.{HasStatus, change_status_found, lookup_same}
use batch_processing_kit.BatchStatus.Deletion.{is_deleted-HasStatus, conclude_own}
use batch_processing_kit.Files.Disk.{
  Disk, Io, does, os_error, Fault, passes, refuses, breaks_off, attempt, write_text,
  write_single_output_json, collect_results,
}
use batch_processing_kit.Orchestrator.{BatchRequest, Result, returns, raises}
use batch_processing_kit.Orchestrator.Hotswap.{Loaded, hotswap_endpoint_managers}
use batch_processing_kit.Orchestrator.Batches.{cancel_running_batch, start_batch}
use batch_processing_kit.Orchestrator.Summaries.{write_summary_information}
use batch_processing_kit.Master.{
  Setting, World, Stage, checking, swapping, starting, announcing, canceling, awaiting, rechecking,
  summarizing, combining, concluding, closing, ready, stopped, died, round_step,
  combined_results_path, swapped, begun, deleted_or, summarized, combined, canceled, concluded,
  gone_disk, master_finalize, after_check, after_announce, summaries,
}
use batch_processing_kit.Master.Valid.{reads_done, Pending, Kept, Valid}

if_scratch :
    (t : Bool) (w w' : World) → w.scratch ≡ w'.scratch → (if t then w else w').scratch ≡ w'.scratch
if_scratch true w w' e = e
if_scratch false w w' e = refl

deleted_only : (e : BatchStatusEnum) → is_deleted_enum e ≡ true → e ≡ deleted
deleted_only waiting h = absurd (cc)
deleted_only running h = absurd (cc)
deleted_only done h = absurd (cc)
deleted_only deleted h = refl

module _ (b : ℕ) (s : Scratch) (p : Pending b s) where
  is_deleted-Pending : Pending b (status_after (is_deleted b s))
  is_deleted-Pending = let (e, h, open_) = p in rw (is_deleted-HasStatus b e s h) (e, h, open_)

  announce-Pending : Pending b (status_after (announce b s))
  unfolding announce
  announce-Pending =
      let (e, h, undone) = p in
      let (d, found, text) = h in
      elim (Bool-cases (is_deleted_enum e)) [
        | inl off ↦ rw (is_deleted-HasStatus b e s h, ◌>>=◌, off) (e, h, undone)
        | inr on ↦
            rw (is_deleted-HasStatus b e s h, ◌>>=◌, on, change_status_found b running s d found)
              (running, (record d { status_file = some "running" }, lookup_same b _ s, refl), refl)
      ]

-- The combined results, if they were written.
abbrev Written : (String → Type 0) → String → Option Io → Type 0
Written Q path none = Unit
Written Q path (some (os_error d)) = Unit
Written Q path (some (does d)) = (text : String) × (lookup path d.files ≡ some text) × Q text

write_text-Written :
    (Q : String → Type 0) (path text : String) (d : Disk)
    → Q text
    → Written Q path (some (write_text path text d))
unfolding write_text
write_text-Written Q path text d q = by_faults d.faults
  where
    there : lookup path (insert path text d.files) ≡ some text
    there = ground (arith, lookup-insert path path text d.files, string_eq.beq_iff path path)

    by_faults :
        (faults : List Fault)
        → Written Q path
            (some (attempt (insert path text d.files) (λ part. insert path part d.files) d faults))
    by_faults [] = (text, there, q)
    by_faults (passes ∷ faults) = (text, there, q)
    by_faults (refuses ∷ faults) = tt
    by_faults (breaks_off part ∷ faults) = tt

module _ (c : Setting) (r : BatchRequest) (Q : String → Type 0) where
  abbrev b : ℕ
  b = r.batch_id

  abbrev file : String
  file = combined_results_path c r.batch_id

  -- The results are collected from the disk as it is.
  abbrev pub collected : Disk → Option (List String)
  collected d = collect_results c.os_path c.json (c.batch_base_path b) d r.files

  results-Written :
      (d : Disk)
      → ((rs : List String) → collected d ≡ some rs → Q (c.json.dumps rs))
      → Written Q file (write_single_output_json c.os_path c.json r.files (c.batch_base_path b) d)
  unfolding write_single_output_json
  results-Written d q = elim (Option-cases (collected d)) [
    | inl bad ↦ rw (Written, bad) tt
    | inr (rs, fine) ↦
        let e : write_single_output_json c.os_path c.json r.files (c.batch_base_path b) d
            ≡ some (write_text file (c.json.dumps rs) d) =
          rw (write_single_output_json, fine) refl in
        subst (Written Q file) (sym e) (write_text-Written Q file (c.json.dumps rs) d (q rs fine))
  ]

  finalize_scratch : (w : World) → (master_finalize c w).scratch ≡ w.scratch
  unfolding master_finalize
  finalize_scratch w = if_scratch _ _ w refl

  module _ (w : World) where
    swapped-Valid : (x : Result (Unit {0})) → Pending b w.scratch → Valid Q file b (swapped w x)
    swapped-Valid (returns u o) p = p
    swapped-Valid (raises e o) p = inl p

    begun-Valid : (x : Result Bool) → Pending b w.scratch → Valid Q file b (begun w c r x)
    begun-Valid (returns true o) p = p
    begun-Valid (returns false o) p =
        inl (subst (Pending b) (sym (finalize_scratch (record w { orchestrator = o }))) p)
    begun-Valid (raises e o) p = inl p

    canceled-Valid : (x : Result Bool) → Pending b w.scratch → Valid Q file b (canceled w x)
    canceled-Valid (returns x o) p = p
    canceled-Valid (raises e o) p = inl p

    checked-Valid :
        (x : StatusResult Bool)
        → Pending b (status_after x)
        → Valid Q file b (deleted_or w after_check x)
    checked-Valid (status_returns true s) p = inl p
    checked-Valid (status_returns false s) p = p
    checked-Valid (status_raises e s) p = inl p

    announced-Valid :
        (x : StatusResult Bool)
        → Pending b (status_after x)
        → Valid Q file b (deleted_or w after_announce x)
    announced-Valid (status_returns true s) p = p
    announced-Valid (status_returns false s) p = p
    announced-Valid (status_raises e s) p = inl p

    marked-Valid :
        (e : BatchStatusEnum)
        → HasStatus b e w.scratch
        → reads_done e ≡ false
        → Valid Q file b (summarizing (is_deleted_enum e), w)
    marked-Valid waiting h p = (waiting, h, p)
    marked-Valid running h p = (running, h, p)
    marked-Valid done h p = (done, h, p)
    marked-Valid deleted h p = h

    rechecked-Valid :
        Pending b w.scratch → Valid Q file b (deleted_or w summarizing (is_deleted b w.scratch))
    rechecked-Valid (e, h, p) = rw (is_deleted-HasStatus b e w.scratch h) (marked-Valid e h p)

    summarized-Valid :
        (g : Bool) (x : Io) → Valid Q file b (summarizing g, w) → Valid Q file b (summarized w g x)
    summarized-Valid true (does d) v = v
    summarized-Valid true (os_error d) v = inl (deleted, v, refl)
    summarized-Valid false (does d) v = v
    summarized-Valid false (os_error d) v = inl v

    combined-Valid :
        (t : Bool) (x : Option Io)
        → t ≡ true
        → Written Q file x
        → Pending b w.scratch
        → Valid Q file b (if t then combined w x else (concluding, w))
    combined-Valid false x e h p = absurd (cc)
    combined-Valid true none e h p = inl p
    combined-Valid true (some (os_error d)) e h p = inl p
    combined-Valid true (some (does d)) e h (s, on_file, undone) =
        ((s, on_file, undone), (s, on_file, inr h))

    concluded-Valid :
        (d : Disk) (x : StatusResult (Unit {0}))
        → Kept Q file b (record w { scratch = status_after x; disk = d })
        → Valid Q file b (concluded w d x)
    concluded-Valid d (status_returns u s) k = k
    concluded-Valid d (status_raises e s) k = inr k

    conclude-Kept :
        (unlinks : String → Bool)
        → Kept Q file b w
        → Kept Q file b (record w {
          scratch = status_after (conclude unlinks b w.scratch);
          disk = gone_disk w c unlinks b (is_deleted b w.scratch);
        })
    unfolding conclude
    conclude-Kept unlinks (e, h, k) = elim (Bool-cases (is_deleted_enum e)) [
      | inl off ↦ (
        deleted,
        conclude_own b w.scratch (subst (λ x. HasStatus b x w.scratch) (deleted_only e off) h)
            unlinks,
        inl refl,
      )
      | inr on ↦
          let (d, found, text) = h in
          rw
            (
              is_deleted-HasStatus b e w.scratch h,
              ◌>>=◌,
              on,
              change_status_found b done w.scratch d found,
            )
            (
              done,
              (record d { status_file = some "done" }, lookup_same b _ w.scratch, refl),
              elim k [ inl q ↦ absurd (cc (ap is_deleted_enum q, on)) | inr there ↦ inr there ],
            )
    ]

    module _ (wants : r.combine_results ≡ true) (config : Loaded) (unlinks : String → Bool) where
      pub round_step-Valid :
          (stage : Stage)
          → ((rs : List String)
              → stage ≡ combining false
              → collected w.disk ≡ some rs
              → Q (c.json.dumps rs))
          → Valid Q file b (stage, w)
          → Valid Q file b (round_step c config unlinks r stage w)
      unfolding round_step
      round_step-Valid checking q v =
          checked-Valid (is_deleted b w.scratch) (is_deleted-Pending b w.scratch v)
      round_step-Valid swapping q v =
          swapped-Valid (hotswap_endpoint_managers config w.orchestrator) v
      round_step-Valid starting q v = begun-Valid (start_batch (some r) w.orchestrator) v
      round_step-Valid announcing q v =
          announced-Valid (announce b w.scratch) (announce-Pending b w.scratch v)
      round_step-Valid canceling q v = canceled-Valid (cancel_running_batch b w.orchestrator) v
      round_step-Valid awaiting q v = elim (Bool-cases w.orchestrator.batch_completion) [
        | inl complete ↦ rw complete v
        | inr waits ↦ rw waits v
      ]
      round_step-Valid rechecking q v = rechecked-Valid v
      round_step-Valid (summarizing g) q v =
          summarized-Valid g
            (write_summary_information (summaries c w) true 10 true w.orchestrator w.scratch w.disk)
            v
      round_step-Valid (combining true) q v = ((deleted, v, refl), (deleted, v, inl refl))
      round_step-Valid (combining false) q v =
          combined-Valid r.combine_results _ wants
            (results-Written w.disk (λ rs fine. q rs refl fine)) v
      round_step-Valid concluding q (p, k) =
          concluded-Valid _ (conclude unlinks b w.scratch) (conclude-Kept unlinks k)
      round_step-Valid closing q v = inr v
      round_step-Valid ready q v = v
      round_step-Valid stopped q v = v
      round_step-Valid died q v = v
