-- ===== src/ApiServer/Answers.antt =====
-- batchkit/apiserver.py: what the server and its controllers answer.
use batch_processing_kit.Prelude.{
  ℕ, ◌≡◌, refl, Bool, [], ◌∷◌, ◌++◌, Option, none, some, String, nat_eq, string_eq, ◌⊎◌, inl, inr,
}
use batch_processing_kit.Prelude.Int.{ℤ, pos}
use batch_processing_kit.Prelude.Dict.{lookup, insert}
use batch_processing_kit.BatchStatus.{
  BatchStatusEnum, results_dir, combined_results, waiting, by_name, Scratch, BatchStatus,
}
use batch_processing_kit.BatchStatus.Lifecycle.{
  HasStatus, IsMissing, missing_raises, new_batch_missing, status-HasStatus, lookup_same,
}
use batch_processing_kit.Orchestrator.{BatchRequest}
use batch_processing_kit.ApiServer.{
  Server, ApiException, bad_request, batch_not_found_exception, any_other, answers, fails, Request,
  batch_status, parsed, submit, submit_controller, status_controller, delete_controller,
  watch_controller, id_from_request, target_state_from_request, status_of, delete, provider, ◌>>=◌,
  watch_block, parsed_id, known_state, from_provider,
}

-- The directory that a new batch has.
abbrev fresh_scratch : ℕ → Scratch → Scratch
fresh_scratch b s =
    insert b (record { status_file = some "waiting"; files = [] })
      (insert b (record { status_file = none; files = [] }) s)

abbrev pub status_answer : BatchStatusEnum → ℕ → BatchStatus
status_answer e b = record {
  batch_id = b;
  status = e;
  has_results_dir = results_dir e;
  has_combined_results = combined_results e;
}

abbrev pub submitted_to : BatchRequest → Server → Server
submitted_to r s = record s {
  scratch = fresh_scratch r.batch_id s.scratch;
  submission_queue = s.submission_queue ++ r ∷ [];
}

fresh-HasStatus : (b : ℕ) (s : Scratch) → HasStatus b waiting (fresh_scratch b s)
fresh-HasStatus b s = (
  record { status_file = some "waiting"; files = [] },
  lookup_same b (record { status_file = some "waiting"; files = [] })
      (insert b (record { status_file = none; files = [] }) s),
  refl,
)

id_read :
    (q : Request) (t : String) (n : ℤ) (s : Server)
    → lookup "batch_id" q.args ≡ some t
    → q.int t ≡ some n
    → id_from_request q s ≡ answers n s
unfolding id_from_request
id_read q t n s named read = rw (id_from_request, named, parsed_id, read) refl

-- What a submission and a later question answer, by what is on record then.
submit_controller-HasStatus :
    (meanwhile : Server → Server) (r : BatchRequest) (e : BatchStatusEnum) (s : Server)
    → IsMissing r.batch_id s.scratch
    → HasStatus r.batch_id e (meanwhile (submitted_to r s)).scratch
    → submit_controller meanwhile (parsed r) s
      ≡ answers (batch_status (status_answer e r.batch_id)) (meanwhile (submitted_to r s))
unfolding submit_controller submit status_of
submit_controller-HasStatus meanwhile r e s missing h =
    rw
      (
        provider,
        new_batch_missing r.batch_id s.scratch missing,
        from_provider,
        ◌>>=◌,
        status-HasStatus r.batch_id e (meanwhile (submitted_to r s)).scratch h,
      )
      refl

status_controller-HasStatus :
    (q : Request) (t : String) (b : ℕ) (e : BatchStatusEnum) (s : Server)
    → lookup "batch_id" q.args ≡ some t
    → q.int t ≡ some (pos b)
    → HasStatus b e s.scratch
    → status_controller q s ≡ answers (batch_status (status_answer e b)) s
unfolding status_of status_controller
status_controller-HasStatus q t b e s named read h =
    rw
      (
        ◌>>=◌,
        id_read q t (pos b) s named read,
        provider,
        status-HasStatus b e s.scratch h,
        from_provider,
      )
      refl

-- A batch that has no directory is submitted by a POST to /submit. Before anybody else acts, the
-- request is at the end of the queue to the orchestrator, and the status on record is `waiting`.
-- If the status on record is `e` after what others do before the answer, then the answer is
-- `e`, and what /status answers then is the same, and changes nothing. If others do nothing, the
-- answer is `waiting`.
pub submit_controller-waiting :
    (meanwhile : Server → Server) (r : BatchRequest) (q : Request) (t : String)
    (e : BatchStatusEnum) (s : Server)
    → IsMissing r.batch_id s.scratch
    → lookup "batch_id" q.args ≡ some t
    → q.int t ≡ some (pos r.batch_id)
    → HasStatus r.batch_id e (meanwhile (submitted_to r s)).scratch
    → HasStatus r.batch_id waiting (submitted_to r s).scratch
      × ((submitted_to r s).submission_queue ≡ s.submission_queue ++ r ∷ [])
      × (submit_controller meanwhile (parsed r) s
          ≡ answers (batch_status (status_answer e r.batch_id)) (meanwhile (submitted_to r s)))
      × (status_controller q (meanwhile (submitted_to r s))
          ≡ answers (batch_status (status_answer e r.batch_id)) (meanwhile (submitted_to r s)))
      × (submit_controller (λ now. now) (parsed r) s
          ≡ answers (batch_status (status_answer waiting r.batch_id)) (submitted_to r s))
submit_controller-waiting meanwhile r q t e s missing named read h = (
  fresh-HasStatus r.batch_id s.scratch,
  refl,
  submit_controller-HasStatus meanwhile r e s missing h,
  status_controller-HasStatus q t r.batch_id e (meanwhile (submitted_to r s)) named read h,
  submit_controller-HasStatus (λ now. now) r waiting s missing
      (fresh-HasStatus r.batch_id s.scratch),
)

-- What is wrong with the argument `batch_id`, and the exception that says so.
abbrev pub HasBadId : Request → Server → ApiException → Type 0
HasBadId q s e =
    ((lookup "batch_id" q.args ≡ none) × (e ≡ bad_request))
    ⊎ (((t : String) × (lookup "batch_id" q.args ≡ some t) × (q.int t ≡ none) × (e ≡ any_other))
        ⊎ ((t : String) × (b : ℕ) × (lookup "batch_id" q.args ≡ some t)
            × (q.int t ≡ some (pos b))
            × (IsMissing b s.scratch)
            × (e ≡ batch_not_found_exception)))

controllers-HasBadId :
    (q : Request) (unlinks : String → Bool) (s : Server) (e : ApiException)
    → HasBadId q s e
    → (status_controller q s ≡ fails e s) × (delete_controller unlinks q s ≡ fails e s)
unfolding status_controller delete_controller id_from_request status_of delete
controllers-HasBadId q unlinks s e (inl (absent, same)) =
    (rw (◌>>=◌, absent, same) refl, rw (◌>>=◌, absent, same) refl)
controllers-HasBadId q unlinks s e (inr (inl (t, named, unread, same))) = (
  rw (◌>>=◌, named, parsed_id, unread, same) refl,
  rw (◌>>=◌, named, parsed_id, unread, same) refl,
)
controllers-HasBadId q unlinks s e (inr (inr (t, b, named, read, missing, same))) =
    let all = missing_raises b waiting unlinks s.scratch missing in
    (
      rw (◌>>=◌, id_read q t (pos b) s named read, provider, all.3, from_provider, same) refl,
      rw (◌>>=◌, id_read q t (pos b) s named read, provider, all.4, from_provider, same) refl,
    )

-- A target state that is missing or unknown.
abbrev pub HasBadState : Request → Type 0
HasBadState q =
    (lookup "target_state" q.args ≡ none)
    ⊎ ((name : String) × (lookup "target_state" q.args ≡ some name) × (by_name name ≡ none))

watch_controller-HasBadState :
    (event : ℕ) (meanwhile : Option ℕ → Server → Server) (q : Request) (t : String) (n : ℤ)
    (s : Server)
    → lookup "batch_id" q.args ≡ some t
    → q.int t ≡ some n
    → HasBadState q
    → watch_controller event meanwhile q s ≡ answers none s
unfolding watch_controller watch_block target_state_from_request
watch_controller-HasBadState event meanwhile q t n s named read (inl absent) =
    rw (◌>>=◌, id_read q t n s named read, absent) refl
watch_controller-HasBadState event meanwhile q t n s named read (inr (name, given, unknown)) =
    rw (◌>>=◌, id_read q t n s named read, given, known_state, unknown) refl

-- /status and /delete answer a bad `batch_id` with the same exception and change nothing: it is a bad
-- request where the argument is missing, an error of the server where it is not a number, and an
-- unknown batch where it is the number of no directory. /watch answers a target state that is missing
-- or unknown with nothing, not even the bad request that it has found, and changes nothing either.
pub controllers_refuse :
    (unlinks : String → Bool) (event : ℕ) (meanwhile : Option ℕ → Server → Server) (q w : Request)
    (t : String) (n : ℤ) (s : Server) (e : ApiException)
    → HasBadId q s e
    → lookup "batch_id" w.args ≡ some t
    → w.int t ≡ some n
    → HasBadState w
    → (status_controller q s ≡ fails e s)
      × (delete_controller unlinks q s ≡ fails e s)
      × (watch_controller event meanwhile w s ≡ answers none s)
controllers_refuse unlinks event meanwhile q w t n s e bad named read state =
    let (status_fails, delete_fails) = controllers-HasBadId q unlinks s e bad in
    (
      status_fails,
      delete_fails,
      watch_controller-HasBadState event meanwhile w t n s named read state,
    )
