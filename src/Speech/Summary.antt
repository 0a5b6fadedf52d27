-- ===== src/Speech/Summary.antt =====
-- batchkit_examples/speech_sdk/run_summarizer.py: the counts of a run summary. The decoding ratio, a
-- float, is left out.
use batch_processing_kit.Prelude.{
  ℕ, suc, ◌+◌, ◌-◌, ◌≡◌, refl, Bool, not, ◌&&◌, ◌||◌, List, [], ◌∷◌, Option, none, some, String,
  if◌then◌else◌, leb, ltb, length, arith,
}
use batch_processing_kit.Orchestrator.{may_retry, orchestrator_scope_max_retries}
use batch_processing_kit.Speech.{SpeechSdkWorkItemResult}

-- The results that are not None.
abbrev known : List (String × Option SpeechSdkWorkItemResult) → List SpeechSdkWorkItemResult
known [] = []
known ((f, none) ∷ rest) = known rest
known ((f, some r) ∷ rest) = r ∷ known rest

abbrev pub count_where : (SpeechSdkWorkItemResult → Bool) → List SpeechSdkWorkItemResult → ℕ
count_where p [] = 0
count_where p (r ∷ rs) = (if p r then 1 else 0) + count_where p rs

-- `attempts - 1` is at most -1 where it stops at 0 here: below the limit either way.
abbrev pub is_failed : SpeechSdkWorkItemResult → Bool
is_failed r =
    not r.base.passed
    && (leb orchestrator_scope_max_retries (r.base.attempts - 1) || not r.base.can_retry)

abbrev pub is_in_retry : SpeechSdkWorkItemResult → Bool
is_in_retry r =
    not r.base.passed
    && r.base.can_retry
    && ltb (r.base.attempts - 1) orchestrator_scope_max_retries

abbrev where_passed : Option ℕ → ℕ
where_passed none = 0
where_passed (some d) = d

abbrev decoded : SpeechSdkWorkItemResult → ℕ
decoded r = if r.base.passed && not r.base.cached then where_passed r.audio_duration else 0

abbrev total_audio : List SpeechSdkWorkItemResult → ℕ
total_audio [] = 0
total_audio (r ∷ rs) = decoded r + total_audio rs

-- "file_stats", and the rest of the summary that is a count.
pub record RunSummary : Type 0 where
  pub total_decoded : ℕ
  pub num_endpoints : ℕ
  pub passed : ℕ
  pub failed : ℕ
  pub in_retry : ℕ
  pub queued : ℕ
  pub running : ℕ
  pub cached : ℕ
  pub total : ℕ
  pub processed_files : List SpeechSdkWorkItemResult

unfoldable pub run_summary : List (String × Option SpeechSdkWorkItemResult) → ℕ → ℕ → ℕ → RunSummary
run_summary results queued running endpoints = record {
  total_decoded = total_audio (known results);
  num_endpoints = endpoints;
  passed = count_where (λ r. r.base.passed) (known results);
  failed = count_where is_failed (known results);
  in_retry = count_where is_in_retry (known results);
  queued = queued;
  running = running;
  cached = count_where (λ r. r.base.cached) (known results);
  total = length results;
  processed_files = known results;
}

-- The files that have no result yet.
abbrev pub unknown : List (String × Option SpeechSdkWorkItemResult) → ℕ
unknown [] = 0
unknown ((f, none) ∷ rest) = suc (unknown rest)
unknown ((f, some r) ∷ rest) = unknown rest

partition :
    (results : List (String × Option SpeechSdkWorkItemResult))
    → count_where (λ r. r.base.passed) (known results)
        + count_where is_failed (known results)
        + count_where is_in_retry (known results)
        + unknown results
      ≡ length results
partition [] = omega arith
partition ((f, none) ∷ rest) = omega (arith, partition rest)
partition ((f, some r) ∷ rest) = ground (arith, partition rest)

-- The results that the orchestrator reports as a failure, and whose file it would put back.
abbrev pub may_run_again : SpeechSdkWorkItemResult → Bool
may_run_again r = not (r.base.passed || r.base.cached) && may_retry r.base r.base

-- A cached result is reported as a success, also where it did not pass.
abbrev pub cached_in_retry : SpeechSdkWorkItemResult → Bool
cached_in_retry r = r.base.cached && is_in_retry r

in_retry-may_retry :
    (rs : List SpeechSdkWorkItemResult)
    → count_where is_in_retry rs ≡ count_where may_run_again rs + count_where cached_in_retry rs
in_retry-may_retry [] = refl
in_retry-may_retry (r ∷ rs) = ground (arith, in_retry-may_retry rs)

-- In a run summary, the passed, the failed and the retried files are, with those that have no
-- result yet, all files, each counted once; and the retried ones are those that the
-- orchestrator's own test would put back for the result on record, and those whose result is
-- cached, which it never puts back.
pub run_summary-partition :
    (results : List (String × Option SpeechSdkWorkItemResult)) (queued running endpoints : ℕ)
    → ((run_summary results queued running endpoints).passed
          + (run_summary results queued running endpoints).failed
          + (run_summary results queued running endpoints).in_retry
          + unknown results
        ≡ (run_summary results queued running endpoints).total)
      × ((run_summary results queued running endpoints).in_retry
          ≡ count_where may_run_again (run_summary results queued running endpoints).processed_files
            + count_where cached_in_retry
                (run_summary results queued running endpoints).processed_files)
unfolding run_summary
run_summary-partition results queued running endpoints =
    (partition results, in_retry-may_retry (known results))
