-- ===== src/Examples/Logs.antt =====
-- A serialization of log records, and what two records on a queue become.
use batch_processing_kit.Prelude.{
  ℕ, ◌≡◌, refl, ap, ◌∙◌, true, false, List, [], ◌∷◌, ◌++◌, Option, none, some, if◌then◌else◌, ◌==◌,
  nat_eq, length, take, drop, take-append, drop-append, arith,
}
use batch_processing_kit.Prelude.Text.{codes}
use batch_processing_kit.LogQueue.{LogRecord, Pickle, queued, listen}
use batch_processing_kit.LogQueue.Delivery.{put_all, put_all-listen}

abbrev message_bytes : Option (List ℕ) → List ℕ
message_bytes none = 0 ∷ []
message_bytes (some m) = 1 ∷ m

abbrev message_of : List ℕ → Option (List ℕ)
message_of [] = none
message_of (b ∷ m) = if b == 0 then none else some m

abbrev dumps : LogRecord → List ℕ
dumps r = r.level ∷ length r.name ∷ (r.name ++ (length r.msg ∷ (r.msg ++ message_bytes r.message)))

abbrev loads_rest : ℕ → List ℕ → List ℕ → Option LogRecord
loads_rest level name [] = none
loads_rest level name (n ∷ rest) =
    some
      (record { name = name; level = level; msg = take n rest; message = message_of (drop n rest) })

abbrev loads : List ℕ → Option LogRecord
loads [] = none
loads (level ∷ []) = none
loads (level ∷ n ∷ rest) = loads_rest level (take n rest) (drop n rest)

message_same : (m : Option (List ℕ)) → message_of (message_bytes m) ≡ m
message_same none = refl
message_same (some m) = refl

loads_rest_same :
    (r : LogRecord)
    → loads_rest r.level r.name (length r.msg ∷ (r.msg ++ message_bytes r.message)) ≡ some r
loads_rest_same r =
    ap
      (λ (x : List ℕ). some (record {
        name = r.name;
        level = r.level;
        msg = x;
        message = message_of (drop (length r.msg) (r.msg ++ message_bytes r.message));
      }))
      (take-append r.msg (message_bytes r.message))
    ∙ ap (λ (x : List ℕ). some (record r { message = message_of x }))
        (drop-append r.msg (message_bytes r.message))
    ∙ ap (λ (x : Option (List ℕ)). some (record r { message = x })) (message_same r.message)

loads-dumps : (r : LogRecord) → loads (dumps r) ≡ some r
loads-dumps r =
    let rest = length r.msg ∷ (r.msg ++ message_bytes r.message) in
    ap (λ (x : List ℕ). loads_rest r.level x (drop (length r.name) (r.name ++ rest)))
      (take-append r.name rest)
    ∙ ap (λ (x : List ℕ). loads_rest r.level r.name x) (drop-append r.name rest)
    ∙ loads_rest_same r

abbrev fields : Pickle
fields = record {
  dumps = dumps;
  loads = loads;
  loads-dumps = loads-dumps;
  dumps_nonempty = λ r. omega arith;
}

abbrev logged : LogRecord
logged = record {
  name = codes "batch";
  level = 20;
  msg = codes "Processing file: a.wav";
  message = none;
}

put_all-listen_example :
    (bytes : List ℕ) × (put_all fields (logged ∷ logged ∷ []) (record { closed = false; pipe = [] })
      ≡ queued (record { closed = true; pipe = bytes }))
    × (listen fields (λ _. 0) 3 (record { closed = false; pipe = bytes })
        ≡ (logged ∷ logged ∷ [], true))
put_all-listen_example =
    put_all-listen fields (λ _. 0) (logged ∷ logged ∷ [])
      ((omega arith, omega arith), ((omega arith, omega arith), tt))
