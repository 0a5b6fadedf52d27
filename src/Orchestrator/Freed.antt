-- ===== src/Orchestrator/Freed.antt =====
-- batchkit/orchestrator.py: the owners of the work in progress after a hot-swap.
use batch_processing_kit.Prelude.{
  ◌≤◌, ◌≡◌, inl, inr, true, false, List, [], ◌∷◌, some, String, arith, ◌==◌, string_eq, Bool-cases,
  Option-cases, ◌∙◌,
}
use batch_processing_kit.Prelude.Dict.{
  contains, count-contains, lookup, keys, count, keys-erase, count-remove, lookup-erase_ne,
}
use batch_processing_kit.WorkItem.{WorkItemRequest}
use batch_processing_kit.Endpoint.{Manager}
use batch_processing_kit.Orchestrator.{Orchestrator, Result, returns, raises, ◌>>=◌, push_work}
use batch_processing_kit.Orchestrator.Hotswap.{Copies, release_from, freed}
use batch_processing_kit.Orchestrator.Release.{drop, release_step}

module _ (deleted : List String) where
  abbrev pub OnReturn {κ} : (Copies → Type κ) → Result Copies → Type κ
  OnReturn P (returns c o) = P c
  OnReturn P (raises e o) = Unit

  -- Work of a deleted manager that is still to visit, as often as the copies have it, is gone from them
  -- after the loop.
  pub release_from-gone :
      (g : String) (k : Manager) (rest : List (String × WorkItemRequest)) (o : Orchestrator)
      (c : Copies)
      → lookup g o.in_progress_owner ≡ some k
      → contains k.endpoint_name deleted ≡ true
      → count g (keys c.work) ≤ count g (keys rest)
      → OnReturn (λ c'. count g (keys c'.work) ≡ 0) (release_from deleted rest c o)
  unfolding release_from push_work count
  release_from-gone g k [] o c owns free few = omega (arith, few)
  release_from-gone g k ((f, w) ∷ rest) o c owns free few =
      elim (Option-cases (lookup f o.in_progress_owner)) [
        | inl missing ↦ rw (missing, freed, ◌>>=◌) tt
        | inr (m, found) ↦
            rw (release_step deleted f w rest o c m found)
              (elim (Bool-cases (contains m.endpoint_name deleted)) [
                | inl frees ↦ rw frees (
                    release_from-gone g k rest (push_work w o) (drop f c) owns free (
                      rw (keys-erase f c.work) (
                        ground (
                          arith,
                          count-remove f g (keys c.work),
                          few,
                          count-contains g (keys c.work),
                          string_eq.beq_iff f g,
                        ))))
                | inr bound ↦ rw bound (
                    release_from-gone g k rest o c owns free
                      (let other = apart f m found bound in ground (arith, few, other)))
              ])
      ]
    where
      apart :
          (f : String) (m : Manager)
          → lookup f o.in_progress_owner ≡ some m
          → contains m.endpoint_name deleted ≡ false
          → (f == g) ≡ false
      apart f m found bound = elim (Bool-cases (f == g)) [
        | inl same ↦ let e : f ≡ g = (string_eq.beq_iff f g).0 same in absurd (cc)
        | inr differs ↦ differs
      ]

  -- Work whose manager stays keeps its owner.
  pub release_from-lookup :
      (g : String) (k : Manager) (rest : List (String × WorkItemRequest)) (o : Orchestrator)
      (c : Copies)
      → lookup g o.in_progress_owner ≡ some k
      → contains k.endpoint_name deleted ≡ false
      → lookup g c.owner ≡ some k
      → OnReturn (λ c'. lookup g c'.owner ≡ some k) (release_from deleted rest c o)
  unfolding release_from push_work
  release_from-lookup g k [] o c owns stays own = own
  release_from-lookup g k ((f, w) ∷ rest) o c owns stays own =
      elim (Option-cases (lookup f o.in_progress_owner)) [
        | inl missing ↦ rw (missing, freed, ◌>>=◌) tt
        | inr (m, found) ↦
            rw (release_step deleted f w rest o c m found)
              (elim (Bool-cases (contains m.endpoint_name deleted)) [
                | inl free ↦ rw free (
                    release_from-lookup g k rest (push_work w o) (drop f c) owns stays
                      (lookup-erase_ne f g c.owner (other f m found free) ∙ own))
                | inr bound ↦ rw bound (release_from-lookup g k rest o c owns stays own)
              ])
      ]
    where
      other :
          (f : String) (m : Manager)
          → lookup f o.in_progress_owner ≡ some m
          → contains m.endpoint_name deleted ≡ true
          → (f == g) ≡ false
      other f m found free = elim (Bool-cases (f == g)) [
        | inl same ↦ let e : f ≡ g = (string_eq.beq_iff f g).0 same in absurd (cc)
        | inr differs ↦ differs
      ]
