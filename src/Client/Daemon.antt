-- ===== src/Client/Daemon.antt =====
-- batchkit/client.py: the run of DaemonClient, which submits each file in one batch.
use batch_processing_kit.Prelude.{
  ℕ, ◌+◌, ◌≤◌, ◌≡◌, refl, Bool, true, false, not, ◌&&◌, ◌||◌, List, [], ◌∷◌, ◌++◌, String,
  if◌then◌else◌, length, ltb, nat_eq, string_eq, arith,
}
use batch_processing_kit.Prelude.Dict.{
  contains, count, add, count-add, contains-add, contains-append, count-append, count-contains,
  contains-count,
}
use batch_processing_kit.Files.Inputs.{flush_queue_into_set}

-- The members of a set that are not in another.
unfoldable pub difference : List String → List String → List String
difference [] ys = []
difference (x ∷ xs) ys = if contains x ys then difference xs ys else x ∷ difference xs ys

-- The files that were ever submitted, the batches in their order, and whether the process has sent
-- itself a SIGHUP.
pub record Daemon : Type 0 where
  pub submitted : List String
  pub batches : List (List String)
  pub hung_up : Bool

-- batchkit/constants.py: 0 is no limit.
abbrev pub daemon_mode_max_files : ℕ
daemon_mode_max_files = 0

abbrev over_limit : List String → Bool
over_limit files = ltb 0 daemon_mode_max_files && not (ltb (length files) daemon_mode_max_files)

abbrev submit_candidates : List String → Daemon → Daemon
submit_candidates [] d = d
submit_candidates (f ∷ fs) d = record {
  submitted = d.submitted ++ f ∷ fs;
  batches = d.batches ++ (f ∷ fs) ∷ [];
  hung_up = if over_limit (d.submitted ++ f ∷ fs) then true else d.hung_up;
}

-- One round of the loop: the notifications on the queue, and the files that a poll finds, where the
-- client polls.
unfoldable pub run_round : Bool → List String → List String → Daemon → Daemon
run_round poll_input que polled d =
    let arrived = if poll_input then que ++ difference polled d.submitted else que in
    submit_candidates (difference (flush_queue_into_set [] arrived) d.submitted) d

-- The rounds until the stop event is set.
unfoldable pub run_rounds : Bool → List (List String × List String) → Daemon → Daemon
run_rounds poll_input [] d = d
run_rounds poll_input ((que, polled) ∷ rounds) d =
    run_rounds poll_input rounds (run_round poll_input que polled d)

abbrev pub started : Daemon
started = record { submitted = []; batches = []; hung_up = false }

abbrev pub concat : List (List String) → List String
concat [] = []
concat (xs ∷ xss) = xs ++ concat xss

count-difference :
    (f : String) (xs ys : List String)
    → count f (difference xs ys) ≡ (if contains f ys then 0 else count f xs)
unfolding difference count
count-difference f [] ys = ground arith
count-difference f (x ∷ xs) ys = ground (arith, count-difference f xs ys, string_eq.beq_iff x f)

-- A set is a list without repetitions.
count-flush :
    (f : String) (items que : List String)
    → count f items ≤ 1
    → count f (flush_queue_into_set items que) ≤ 1
unfolding flush_queue_into_set
count-flush f items [] h = h
count-flush f items (x ∷ que) h =
    count-flush f (add x items) que
      (ground (arith, count-add x f items, string_eq.beq_iff x f, count-contains f items))

contains-flush :
    (f : String) (items que : List String)
    → contains f (flush_queue_into_set items que) ≡ (contains f items || contains f que)
unfolding flush_queue_into_set contains
contains-flush f items [] = ground arith
contains-flush f items (x ∷ que) =
    ground (arith, contains-flush f (add x items) que, contains-add x f items)

contains-difference :
    (f : String) (xs ys : List String)
    → contains f (difference xs ys) ≡ (contains f xs && not (contains f ys))
unfolding difference contains
contains-difference f [] ys = ground arith
contains-difference f (x ∷ xs) ys =
    ground (arith, contains-difference f xs ys, string_eq.beq_iff x f)

-- Once if it is there, and else not at all.
abbrev once : Bool → ℕ
once b = if b then 1 else 0

count-flush_once :
    (f : String) (que : List String) → count f (flush_queue_into_set [] que) ≡ once (contains f que)
unfolding count contains
count-flush_once f que = ground (
  arith,
  count-flush f [] que (omega arith),
  contains-flush f [] que,
  contains-count f (flush_queue_into_set [] que),
  count-contains f (flush_queue_into_set [] que),
)

count-concat :
    (f : String) (xss : List (List String)) (xs : List String)
    → count f (concat (xss ++ xs ∷ [])) ≡ count f (concat xss) + count f xs
unfolding count
count-concat f [] xs = omega (arith, count-append f xs [])
count-concat f (ys ∷ xss) xs = omega (
  arith,
  count-concat f xss xs,
  count-append f ys (concat (xss ++ xs ∷ [])),
  count-append f ys (concat xss),
)

count-submit_candidates :
    (f : String) (cs : List String) (d : Daemon)
    → (count f (submit_candidates cs d).submitted ≡ count f d.submitted + count f cs)
      × (count f (concat (submit_candidates cs d).batches)
          ≡ count f (concat d.batches) + count f cs)
unfolding count
count-submit_candidates f [] d = (omega arith, omega arith)
count-submit_candidates f (c ∷ cs) d =
    (count-append f d.submitted (c ∷ cs), count-concat f d.batches (c ∷ cs))

-- The files that a round notices.
abbrev pub round_notices : Bool → List String → List String → String → Bool
round_notices poll_input que polled f = contains f que || poll_input && contains f polled

abbrev pub is_noticed : Bool → List (List String × List String) → String → Bool
is_noticed poll_input [] f = false
is_noticed poll_input ((que, polled) ∷ rounds) f =
    round_notices poll_input que polled f || is_noticed poll_input rounds f

-- The files that were submitted are those of the batches, and a file is there once or not at all.
abbrev HasOnce : String → Bool → Daemon → Type 0
HasOnce f b d = (count f d.submitted ≡ once b) × (count f (concat d.batches) ≡ once b)

round-HasOnce :
    (poll_input : Bool) (que polled : List String) (f : String) (b : Bool) (d : Daemon)
    → HasOnce f b d
    → HasOnce f (b || round_notices poll_input que polled f) (run_round poll_input que polled d)
unfolding run_round
round-HasOnce poll_input que polled f b d (s, h) =
    let arrived = if poll_input then que ++ difference polled d.submitted else que in
    let cs = difference (flush_queue_into_set [] arrived) d.submitted in
    let (s', h') = count-submit_candidates f cs d in
    let c : count f cs ≡ once (not b && round_notices poll_input que polled f) = ground (
      arith,
      s,
      count-difference f (flush_queue_into_set [] arrived) d.submitted,
      count-flush_once f arrived,
      contains-append f que (difference polled d.submitted),
      contains-difference f polled d.submitted,
      contains-count f d.submitted,
      count-contains f d.submitted,
    ) in
    (ground (arith, s, s', c), ground (arith, h, h', c))

rounds-HasOnce :
    (poll_input : Bool) (rounds : List (List String × List String)) (f : String) (b : Bool)
    (d : Daemon)
    → HasOnce f b d
    → HasOnce f (b || is_noticed poll_input rounds f) (run_rounds poll_input rounds d)
unfolding run_rounds
rounds-HasOnce poll_input [] f b d h = (ground (arith, h.0), ground (arith, h.1))
rounds-HasOnce poll_input ((que, polled) ∷ rounds) f b d h =
    let (s, k) =
      rounds-HasOnce poll_input rounds f (b || round_notices poll_input que polled f)
        (run_round poll_input que polled d) (round-HasOnce poll_input que polled f b d h) in
    (ground (arith, s), ground (arith, k))

-- However often a file is noticed, by notifications or by polls, before the daemon is stopped, it is in
-- exactly one batch, once; and no file that was not noticed is in a batch.
pub run_rounds-once :
    (poll_input : Bool) (rounds : List (List String × List String)) (f : String)
    → count f (concat (run_rounds poll_input rounds started).batches)
      ≡ (if is_noticed poll_input rounds f then 1 else 0)
unfolding count
run_rounds-once poll_input rounds f =
    (rounds-HasOnce poll_input rounds f false started (refl, refl)).1
