-- ===== src/Examples/Workers.antt =====
-- A manager of an endpoint with room for two requests.
use batch_processing_kit.Prelude.{true, false, List, [], ◌∷◌}
use batch_processing_kit.Endpoint.Capacity.{
  Turn, new_worker, looks, takes, applies, calls_back, counts, gives_back, checks, turns,
}
use batch_processing_kit.Endpoint.Bounds.{InBounds, new_worker-InBounds}

-- The second request is counted while the callback of the first is between its sections.
abbrev filling : List Turn
filling =
    checks true
    ∷ looks
    ∷ takes false
    ∷ applies
    ∷ calls_back
    ∷ looks
    ∷ takes false
    ∷ counts false
    ∷ applies
    ∷ gives_back
    ∷ looks
    ∷ []

new_worker-InBounds_example : InBounds (turns filling (new_worker 2))
new_worker-InBounds_example = new_worker-InBounds 2 filling
