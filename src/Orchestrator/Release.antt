-- ===== src/Orchestrator/Release.antt =====
-- batchkit/orchestrator.py: the loop of a hot-swap that takes work back from deleted managers.
use batch_processing_kit.Prelude.{
  ◌+◌, ◌≤◌, ◌≡◌, refl, inl, inr, true, List, [], ◌∷◌, some, String, if◌then◌else◌, arith, ◌==◌,
  nat_eq, string_eq, All, Bool-cases, ap, sym, ◌∙◌,
}
use batch_processing_kit.Prelude.Dict.{
  contains, lookup, erase, keys, count, count-contains, remove, keys-erase, count-remove,
  contains-lookup, All-erase,
}
use batch_processing_kit.WorkItem.{WorkItemRequest, files, qsize}
use batch_processing_kit.Endpoint.{Manager}
use batch_processing_kit.Orchestrator.{Orchestrator, returns, ◌>>=◌, push_work}
use batch_processing_kit.Orchestrator.Invariant.{push_work-counted}
use batch_processing_kit.Orchestrator.Hotswap.{Copies, release_from, freed}
use batch_processing_kit.WorkItem.Contents.{count-put}

-- What the loop keeps of the queue and of the copies.
pub record Releases (o : Orchestrator) (c : Copies) (o' : Orchestrator) (c' : Copies) : Type 0 where
  pub only_queue :
      o' ≡ record o { file_queue = o'.file_queue; file_queue_size = o'.file_queue_size }
  pub counted : o'.file_queue_size ≡ qsize o'.file_queue
  pub kept :
      (g : String)
      → count g (files o'.file_queue) + count g (keys c'.work)
        ≡ count g (files o.file_queue) + count g (keys c.work)
  pub owned : keys c'.owner ≡ keys c'.work
  pub named : All (λ e. e.1.filepath ≡ e.0) c'.work

abbrev pub Released : List String → List (String × WorkItemRequest) → Orchestrator → Copies → Type 0
Released deleted rest o c =
    (c' : Copies) × (o' : Orchestrator) × (release_from deleted rest c o ≡ returns c' o')
    × Releases o c o' c'

-- What the loop needs of what is left to visit.
pub record Ready (rest : List (String × WorkItemRequest)) (o : Orchestrator) (c : Copies)
    : Type 0 where
  pub counted : o.file_queue_size ≡ qsize o.file_queue
  pub owned : keys c.owner ≡ keys c.work
  pub named : All (λ e. e.1.filepath ≡ e.0) c.work
  pub visits : All (λ e. e.1.filepath ≡ e.0) rest
  pub present : (g : String) → count g (keys rest) ≤ count g (keys c.work)
  pub owners : (g : String) → count g (keys rest) ≤ count g (keys o.in_progress_owner)

abbrev pub drop : String → Copies → Copies
drop f c = record { work = erase f c.work; owner = erase f c.owner }

module _ (f : String) (w : WorkItemRequest) (rest : List (String × WorkItemRequest))
    (o : Orchestrator) (c : Copies) (h : Ready ((f, w) ∷ rest) o c) where
  first_present : contains f (keys c.work) ≡ true
  unfolding count
  first_present =
      count-contains f (keys c.work) (ground (arith, h.present f, string_eq.beq_iff f f))

  first_owned : (m : Manager) × (lookup f o.in_progress_owner ≡ some m)
  unfolding count
  first_owned = contains-lookup f o.in_progress_owner (
      count-contains f (keys o.in_progress_owner)
        (ground (arith, h.owners f, string_eq.beq_iff f f)))

  drop-count :
      (g : String)
      → count g (keys (erase f c.work)) + (if f == g then 1 else 0) ≡ count g (keys c.work)
  drop-count g =
      rw (keys-erase f c.work) (ground (arith, count-remove f g (keys c.work), first_present))

  drop-Ready : Ready rest (push_work w o) (drop f c)
  unfolding push_work count
  drop-Ready = record {
    counted = push_work-counted w o h.counted;
    owned = keys-erase f c.owner ∙ ap (remove f) h.owned ∙ sym (keys-erase f c.work);
    named = All-erase (λ e. e.1.filepath ≡ e.0) f c.work h.named;
    visits = h.visits.1;
    present = λ g. omega (arith, drop-count g, h.present g);
    owners = λ g. omega (arith, h.owners g);
  }

  skip-Ready : Ready rest o c
  unfolding count
  skip-Ready = record {
    counted = h.counted;
    owned = h.owned;
    named = h.named;
    visits = h.visits.1;
    present = λ g. omega (arith, h.present g);
    owners = λ g. omega (arith, h.owners g);
  }

  drop-Releases :
      (o' : Orchestrator) (c' : Copies)
      → Releases (push_work w o) (drop f c) o' c'
      → Releases o c o' c'
  unfolding push_work
  drop-Releases o' c' r = record {
    only_queue = r.only_queue;
    counted = r.counted;
    kept = λ g.
        ground
          (arith, r.kept g, count-put g w o.file_queue, drop-count g, ap (λ x. x == g) h.visits.0);
    owned = r.owned;
    named = r.named;
  }

pub release_step :
    (deleted : List String) (f : String) (w : WorkItemRequest)
    (rest : List (String × WorkItemRequest)) (o : Orchestrator) (c : Copies) (m : Manager)
    → lookup f o.in_progress_owner ≡ some m
    → release_from deleted ((f, w) ∷ rest) c o
      ≡ release_from deleted rest
          (if contains m.endpoint_name deleted then drop f c else c)
          (if contains m.endpoint_name deleted then push_work w o else o)
unfolding release_from
release_step deleted f w rest o c m found = rw (found, freed, ◌>>=◌)

pub release_from-Released :
    (deleted : List String) (rest : List (String × WorkItemRequest)) (o : Orchestrator) (c : Copies)
    → Ready rest o c
    → Released deleted rest o c
unfolding release_from
release_from-Released deleted [] o c h = (
  c,
  o,
  refl,
  record {
    only_queue = refl;
    counted = h.counted;
    kept = λ g. refl;
    owned = h.owned;
    named = h.named;
  },
)
release_from-Released deleted ((f, w) ∷ rest) o c h =
    let (m, found) = first_owned f w rest o c h in
    let step = release_step deleted f w rest o c m found in
    elim (Bool-cases (contains m.endpoint_name deleted)) [
      | inl free ↦
          let (c', o', e, r) =
            release_from-Released deleted rest (push_work w o) (drop f c)
              (drop-Ready f w rest o c h) in
          (c', o', (rw free at step) ∙ e, drop-Releases f w rest o c h o' c' r)
      | inr bound ↦
          let (c', o', e, r) = release_from-Released deleted rest o c (skip-Ready f w rest o c h) in
          (c', o', (rw bound at step) ∙ e, r)
    ]
