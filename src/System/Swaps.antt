-- ===== src/System/Swaps.antt =====
-- The system under a hot-swap (batchkit/orchestrator.py).
use batch_processing_kit.Prelude.{
  ◌≡◌, ◌⊎◌, inl, inr, true, false, List, [], ◌++◌, some, String, arith, nat_eq, string_eq, All,
  All-append, All-map, Bool-cases, sym, ap, ◌∙◌, subst,
}
use batch_processing_kit.Prelude.Dict.{contains, lookup, keys}
use batch_processing_kit.Endpoint.{EndpointConfig, Manager, manager_name_eq}
use batch_processing_kit.Orchestrator.{Orchestrator, Result, returns, after, IsReturned, is_old}
use batch_processing_kit.Orchestrator.Invariant.{Inv}
use batch_processing_kit.Orchestrator.Reports.{is_ignored}
use batch_processing_kit.Orchestrator.Lifecycle.{IsIdle}
use batch_processing_kit.Orchestrator.Hotswap.{
  Loaded, loaded, invalid_configuration, Copies, Plan, plan, retire, surviving, release_from,
  hotswap_endpoint_managers,
}
use batch_processing_kit.Orchestrator.Release.{Releases}
use batch_processing_kit.Orchestrator.Freed.{OnReturn, release_from-lookup}
use batch_processing_kit.Orchestrator.Swapped.{
  retiring, originals, installed, installed-IsIdle, carry_out-Carried, hotswap_live,
  hotswap_stopped, hotswap-Inv,
}
use batch_processing_kit.System.{System, IsWellNamed, names}
use batch_processing_kit.System.Held.{Held, SystemInv, live_mono}
use batch_processing_kit.System.Retired.{
  retire_mono, retire-adds, surviving-IsWellNamed, surviving-listed, names-map, map-IsWellNamed,
  plan_from-IsWellNamed,
}

-- What a result of the loop says of its copies and of the state.
on_return :
    (P : Copies → Type 0) {x : Result Copies} {c : Copies} {o : Orchestrator}
    → x ≡ returns c o
    → OnReturn [] P x
    → P c
on_return P e h = subst (OnReturn [] P) e h

module _ (s : System) (config : List (String × EndpointConfig)) (v : SystemInv s)
    (alive : s.orchestrator.stop_requested ≡ false) where
  abbrev o : Orchestrator
  o = s.orchestrator

  abbrev p : Plan
  p = plan config o

  abbrev gone : List String
  gone = keys p.deleted

  module _ (c : Copies) (o' : Orchestrator)
      (loop : release_from gone o.in_progress (originals p o) (retiring p o) ≡ returns c o')
      (r : Releases (retiring p o) (originals p o) o' c) where
    abbrev final : Orchestrator
    final = installed p o c o'

    final_old : final.old_managers ≡ retire gone o.endpoint_managers o.old_managers
    final_old = rw r.only_queue

    final_stop : final.stop_requested ≡ o.stop_requested
    final_stop = rw r.only_queue

    final_ignored : (m : Manager) → is_ignored m o ≡ true → is_ignored m final ≡ true
    unfolding is_old
    final_ignored m h =
        rw (final_old, final_stop)
          (ground (arith, retire_mono gone m.name o.endpoint_managers o.old_managers))

    final_names :
        names final.endpoint_managers ≡ names (surviving gone o.endpoint_managers ++ p.created)
    final_names = names-map _ _ ∙ rw r.only_queue

    final-IsWellNamed : All IsWellNamed final.endpoint_managers
    unfolding plan
    final-IsWellNamed = map-IsWellNamed _ _ (
        rw r.only_queue (
          All-append IsWellNamed _ _ (surviving-IsWellNamed gone o.endpoint_managers v.well_named)
            (plan_from-IsWellNamed _ _ _ config _ tt)))

    final-Held : (e : Manager × String) → Held o e → Held final e
    unfolding is_old
    final-Held (m, f) (inl h) = inl (final_ignored m h)
    final-Held (m, f) (inr h) = elim (Bool-cases (contains m.name.endpoint gone)) [
      | inl deleted ↦ inl (
          rw final_old (
            ground (
              arith,
              retire-adds gone m.name o.endpoint_managers o.old_managers v.well_named h.listed
                  deleted,
            )))
      | inr stays ↦ inr (record {
        owner =
            on_return (λ c. lookup f c.owner ≡ some m) loop
              (release_from-lookup gone f m o.in_progress (retiring p o) (originals p o) h.owner
                (ap (λ x. contains x gone) (sym h.well_named) ∙ stays) h.owner);
        listed = rw final_names (
            surviving-listed gone m.name o.endpoint_managers p.created v.well_named h.listed stays);
        well_named = h.well_named;
      })
    ]

    final-IsIdle : IsIdle o → IsIdle final
    final-IsIdle i = installed-IsIdle p o c o' loop i

    final-System : Inv final → SystemInv (record s { orchestrator = final })
    final-System i = record {
      inv = i;
      well_named = final-IsWellNamed;
      held = All-map final-Held s.outstanding v.held;
      apart = λ f. omega (arith, live_mono o final final_ignored f s.outstanding, v.apart f);
      completed = λ h. still (v.completed (rw r.only_queue at h));
      unstarted = λ h. still (v.unstarted (rw r.only_queue at h));
    }
      where
        still : (o.stop_requested ≡ true) ⊎ IsIdle o → (final.stop_requested ≡ true) ⊎ IsIdle final
        still (inl stop) = inl (final_stop ∙ stop)
        still (inr quiet) = inr (final-IsIdle quiet)

abbrev Swapped : System → Result (Unit {0}) → Type 0
Swapped s r = SystemInv (record s { orchestrator = after r }) × IsReturned r

-- A hot-swap keeps the system's invariant, and raises nothing.
pub swaps-System :
    (s : System) (l : Loaded) → SystemInv s → Swapped s (hotswap_endpoint_managers l s.orchestrator)
unfolding hotswap_endpoint_managers
swaps-System s invalid_configuration v = (v, tt)
swaps-System s (loaded config) v = elim (Bool-cases s.orchestrator.stop_requested) [
  | inl stops ↦ subst (Swapped s) (sym (hotswap_stopped config s.orchestrator stops)) (v, tt)
  | inr alive ↦
      let (c, o', e, loop, r) =
        carry_out-Carried (plan config s.orchestrator) s.orchestrator v.inv in
      let i = hotswap-Inv (loaded config) s.orchestrator v.inv in
      let all = hotswap_live config s.orchestrator alive ∙ e in
      subst (Swapped s) (sym all)
        (final-System s config v alive c o' loop r (subst (λ x. Inv (after x)) all i), tt)
]
