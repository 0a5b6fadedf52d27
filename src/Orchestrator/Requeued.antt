-- ===== src/Orchestrator/Requeued.antt =====
-- batchkit/orchestrator.py: what a hot-swap makes of the work in progress, by its manager.
use batch_processing_kit.Prelude.{
  ◌≡◌, ◌⊎◌, inl, inr, true, false, List, String, some, arith, string_eq, Bool-cases, sym, ap, ◌∙◌,
  subst,
}
use batch_processing_kit.Prelude.Dict.{contains, lookup, keys, count}
use batch_processing_kit.WorkItem.{files}
use batch_processing_kit.Endpoint.{EndpointConfig, Manager}
use batch_processing_kit.Orchestrator.{Orchestrator, returns, after}
use batch_processing_kit.Orchestrator.Invariant.{Inv, pending}
use batch_processing_kit.Orchestrator.Hotswap.{
  loaded, plan, Copies, release_from, hotswap_endpoint_managers,
}
use batch_processing_kit.Orchestrator.Freed.{OnReturn, release_from-gone, release_from-lookup}
use batch_processing_kit.Orchestrator.Swapped.{
  retiring, originals, installed, carry_out-Carried, hotswap_stopped, hotswap_live, hotswap-pending,
}

-- The endpoints whose managers a hot-swap deletes.
abbrev pub deleted_by : List (String × EndpointConfig) → Orchestrator → List String
deleted_by config o = keys (plan config o).deleted

-- The work is in progress no more, and all of it is queued.
pub record Requeued (f : String) (o o' : Orchestrator) : Type 0 where
  pub not_in_progress : count f (keys o'.in_progress) ≡ 0
  pub queued : count f (files o'.file_queue) ≡ pending f o

-- The outcome for the file `f`, which the manager `m` works on.
abbrev pub Swapped :
    List (String × EndpointConfig) → String → Manager → Orchestrator → Orchestrator → Type 0
Swapped config f m o o' =
    ((o.stop_requested ≡ true) × (o' ≡ o))
    ⊎ (((contains m.endpoint_name (deleted_by config o) ≡ true) × Requeued f o o')
        ⊎ ((contains m.endpoint_name (deleted_by config o) ≡ false)
            × (lookup f o'.in_progress_owner ≡ some m)))

module _ (config : List (String × EndpointConfig)) (o : Orchestrator) (f : String)
    (m : Manager) where
  carried-Swapped :
      (c : Copies) (o' : Orchestrator)
      → lookup f o.in_progress_owner ≡ some m
      → release_from
          (deleted_by config o)
          o.in_progress
          (originals (plan config o) o)
          (retiring (plan config o) o)
        ≡ returns c o'
      → pending f (installed (plan config o) o c o') ≡ pending f o
      → Swapped config f m o (installed (plan config o) o c o')
  carried-Swapped c o' owns loop kept =
      elim (Bool-cases (contains m.endpoint_name (deleted_by config o))) [
        | inl free ↦
            let gone : count f (keys c.work) ≡ 0 =
              subst (OnReturn (deleted_by config o) (λ c. count f (keys c.work) ≡ 0)) loop (
                release_from-gone (deleted_by config o) f m o.in_progress
                  (retiring (plan config o) o) (originals (plan config o) o) owns free
                  (omega arith)) in
            inr (inl (free, record { not_in_progress = gone; queued = omega (arith, kept, gone) }))
        | inr stays ↦ inr (
            inr (
              stays,
              subst (OnReturn (deleted_by config o) (λ c. lookup f c.owner ≡ some m)) loop (
                  release_from-lookup (deleted_by config o) f m o.in_progress
                    (retiring (plan config o) o) (originals (plan config o) o) owns stays owns),
            ))
      ]

-- In a state with the invariant, a manager works on a file when a configuration is loaded. The hot-swap
-- leaves the file pending as often as it was. If a stop was requested, nothing changes. Otherwise,
-- if the hot-swap deletes the managers of that endpoint, then the file is not in progress after
-- it, and is queued as often as it was pending; and if not, then the manager still owns the work.
pub hotswap-requeues :
    (config : List (String × EndpointConfig)) (o : Orchestrator) (f : String) (m : Manager)
    → Inv o
    → lookup f o.in_progress_owner ≡ some m
    → (pending f (after (hotswap_endpoint_managers (loaded config) o)) ≡ pending f o)
      × Swapped config f m o (after (hotswap_endpoint_managers (loaded config) o))
hotswap-requeues config o f m v owns = (
  hotswap-pending (loaded config) o f v,
  elim (Bool-cases o.stop_requested) [
    | inl stops ↦ inl (stops, ap after (hotswap_stopped config o stops))
    | inr live ↦
        let (c, o', e, loop, r) = carry_out-Carried (plan config o) o v in
        subst (λ x. Swapped config f m o (after x)) (sym (hotswap_live config o live ∙ e))
          (carried-Swapped config o f m c o' owns loop (r.kept f))
  ],
)
