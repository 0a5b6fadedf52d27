-- ===== src/Orchestrator/Swapped.antt =====
-- batchkit/orchestrator.py: `hotswap_endpoint_managers` as a whole.
use batch_processing_kit.Prelude.{
  ◌+◌, ◌≡◌, refl, inl, inr, Bool, true, false, List, ◌++◌, map, String, if◌then◌else◌, arith,
  string_eq, Bool-cases, sym, ap, ◌∙◌, subst,
}
use batch_processing_kit.Prelude.Dict.{keys}
use batch_processing_kit.Endpoint.{EndpointConfig}
use batch_processing_kit.Orchestrator.{Orchestrator, Result, returns, after, return, ◌>>=◌}
use batch_processing_kit.Orchestrator.Invariant.{Inv, pending}
use batch_processing_kit.Orchestrator.Hotswap.{
  Loaded, loaded, invalid_configuration, Copies, Plan, plan, retire, surviving, set_checker,
  checker_of, release_from, carry_out, hotswap_endpoint_managers,
}
use batch_processing_kit.Orchestrator.Lifecycle.{IsIdle}
use batch_processing_kit.WorkItem.{qsize}
use batch_processing_kit.Orchestrator.Release.{Ready, Releases, release_from-Released}

module _ (p : Plan) (o : Orchestrator) where
  -- The state in which the loop starts.
  abbrev pub retiring : Orchestrator
  retiring = record o {
    endpoint_generation = o.endpoint_generation + 1;
    old_managers = retire (keys p.deleted) o.endpoint_managers o.old_managers;
  }

  abbrev pub originals : Copies
  originals = record { work = o.in_progress; owner = o.in_progress_owner }

  abbrev pub installed : Copies → Orchestrator → Orchestrator
  installed c o' = record o' {
    in_progress = c.work;
    in_progress_owner = c.owner;
    endpoint_managers =
        map (set_checker (checker_of o'.on_batch_type))
          (surviving (keys p.deleted) o'.endpoint_managers ++ p.created);
  }

  originals-Ready : Inv o → Ready o.in_progress retiring originals
  originals-Ready v = record {
    counted = v.counted;
    owned = v.owned;
    named = v.named;
    visits = v.named;
    present = λ g. omega arith;
    owners = λ g. rw v.owned (omega arith);
  }

  abbrev pub Carried : Type 0
  Carried =
      (c : Copies) × (o' : Orchestrator) × (carry_out p o ≡ returns tt (installed c o'))
      × (release_from (keys p.deleted) o.in_progress originals retiring ≡ returns c o')
      × Releases retiring originals o' c

  pub carry_out-Carried : Inv o → Carried
  unfolding carry_out
  carry_out-Carried v =
      let (c, o', e, r) =
        release_from-Released (keys p.deleted) o.in_progress retiring originals
          (originals-Ready v) in
      (c, o', rw (e, ◌>>=◌), e, r)

  installed-Inv :
      (c : Copies) (o' : Orchestrator)
      → Inv o
      → Releases retiring originals o' c
      → Inv (installed c o')
  installed-Inv c o' v r = record {
    counted = r.counted;
    owned = r.owned;
    named = r.named;
    once = λ g. omega (arith, r.kept g, v.once g);
  }

  -- With nothing in progress the loop has no round.
  pub installed-IsIdle :
      (c : Copies) (o' : Orchestrator)
      → release_from (keys p.deleted) o.in_progress originals retiring ≡ returns c o'
      → IsIdle o
      → IsIdle (installed c o')
  unfolding release_from
  installed-IsIdle c o' loop i =
      let no_round : returns originals retiring ≡ returns c o' =
        ap (λ w. release_from (keys p.deleted) w originals retiring) (sym i.work) ∙ loop in
      let state : retiring ≡ o' = ap after no_round in
      let copies : originals ≡ c = cc no_round in
      record {
        size = ap (λ (x : Orchestrator). x.file_queue_size) (sym state) ∙ i.size;
        queue = ap (λ (x : Orchestrator). qsize x.file_queue) (sym state) ∙ i.queue;
        work = ap (λ (x : Copies). x.work) (sym copies) ∙ i.work;
        owner = ap (λ (x : Copies). x.owner) (sym copies) ∙ i.owner;
      }

module _ (config : List (String × EndpointConfig)) (o : Orchestrator) where
  abbrev guarded : Bool → Result (Unit {0})
  guarded stops = (if stops then return tt else carry_out (plan config o)) o

  pub hotswap_stopped :
      o.stop_requested ≡ true → hotswap_endpoint_managers (loaded config) o ≡ returns tt o
  unfolding hotswap_endpoint_managers
  hotswap_stopped h = ap guarded h

  pub hotswap_live :
      o.stop_requested ≡ false
      → hotswap_endpoint_managers (loaded config) o ≡ carry_out (plan config o) o
  unfolding hotswap_endpoint_managers
  hotswap_live h = ap guarded h

pub hotswap-Inv :
    (l : Loaded) (o : Orchestrator) → Inv o → Inv (after (hotswap_endpoint_managers l o))
unfolding hotswap_endpoint_managers
hotswap-Inv invalid_configuration o v = v
hotswap-Inv (loaded config) o v = elim (Bool-cases o.stop_requested) [
  | inl stops ↦ subst (λ x. Inv (after x)) (sym (hotswap_stopped config o stops)) v
  | inr live ↦
      let (c, o', e, _, r) = carry_out-Carried (plan config o) o v in
      subst (λ x. Inv (after x)) (sym (hotswap_live config o live ∙ e))
        (installed-Inv (plan config o) o c o' v r)
]

-- From a state with the invariant, a hot-swap leaves every file pending as often as it was,
-- whatever the configuration holds: work taken back from deleted managers is queued again.
pub hotswap-pending :
    (l : Loaded) (o : Orchestrator) (f : String)
    → Inv o
    → pending f (after (hotswap_endpoint_managers l o)) ≡ pending f o
unfolding hotswap_endpoint_managers
hotswap-pending invalid_configuration o f v = refl
hotswap-pending (loaded config) o f v = elim (Bool-cases o.stop_requested) [
  | inl stops ↦ ap (λ x. pending f (after x)) (hotswap_stopped config o stops)
  | inr live ↦
      let (c, o', e, _, r) = carry_out-Carried (plan config o) o v in
      ap (λ x. pending f (after x)) (hotswap_live config o live ∙ e) ∙ r.kept f
]
