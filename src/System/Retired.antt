-- ===== src/System/Retired.antt =====
-- The lists of managers that a hot-swap makes (batchkit/orchestrator.py).
use batch_processing_kit.Prelude.{
  ℕ, ◌≡◌, refl, inl, inr, Bool, true, false, List, [], ◌∷◌, ◌++◌, map, String, if◌then◌else◌, arith,
  ◌==◌, nat_eq, string_eq, All, All-append, Bool-cases, sym, ap, ◌∙◌,
}
use batch_processing_kit.Prelude.Dict.{contains, contains-add, add, lookup}
use batch_processing_kit.Endpoint.{EndpointConfig, Manager, ManagerName, manager_name_eq}
use batch_processing_kit.Orchestrator.Hotswap.{
  Plan, plan_from, plan_endpoint, preserved, retire, surviving, set_checker,
}
use batch_processing_kit.System.{IsWellNamed, names}

module _ (deleted : List String) where
  -- Retirement only adds names.
  pub retire_mono :
      (n : ManagerName) (ms : List Manager) (old : List ManagerName)
      → contains n old ≡ true
      → contains n (retire deleted ms old) ≡ true
  unfolding retire
  retire_mono n [] old h = h
  retire_mono n (m ∷ ms) old h =
      retire_mono n ms (if contains m.endpoint_name deleted then add m.name old else old)
        (ground (arith, contains-add m.name n old))

  same_endpoint :
      (n : ManagerName) (m : Manager) {b : Bool}
      → (m.name == n) ≡ true
      → IsWellNamed m
      → contains n.endpoint deleted ≡ b
      → contains m.endpoint_name deleted ≡ b
  same_endpoint n m here w d =
      let e : m.name ≡ n = (manager_name_eq.beq_iff m.name n).0 here in
      ap (λ x. contains x deleted) (sym w ∙ ap (λ (x : ManagerName). x.endpoint) e) ∙ d

  -- A listed manager of a deleted endpoint is retired.
  pub retire-adds :
      (n : ManagerName) (ms : List Manager) (old : List ManagerName)
      → All IsWellNamed ms
      → contains n (names ms) ≡ true
      → contains n.endpoint deleted ≡ true
      → contains n (retire deleted ms old) ≡ true
  unfolding retire names contains
  retire-adds n [] old w listed d = absurd (cc)
  retire-adds n (m ∷ ms) old w listed d = elim (Bool-cases (m.name == n)) [
    | inl here ↦
        retire_mono n ms _ (rw (same_endpoint n m here w.0 d, contains-add m.name n old, here))
    | inr later ↦ retire-adds n ms _ w.1 (rw later at listed) d
  ]

  pub surviving-IsWellNamed :
      (ms : List Manager) → All IsWellNamed ms → All IsWellNamed (surviving deleted ms)
  unfolding surviving
  surviving-IsWellNamed [] w = tt
  surviving-IsWellNamed (m ∷ ms) w = elim (Bool-cases (contains m.endpoint_name deleted)) [
    | inl gone ↦ rw gone (surviving-IsWellNamed ms w.1)
    | inr stays ↦ rw stays (w.0, surviving-IsWellNamed ms w.1)
  ]

  -- A listed manager of another endpoint stays listed.
  pub surviving-listed :
      (n : ManagerName) (ms more : List Manager)
      → All IsWellNamed ms
      → contains n (names ms) ≡ true
      → contains n.endpoint deleted ≡ false
      → contains n (names (surviving deleted ms ++ more)) ≡ true
  unfolding surviving names contains
  surviving-listed n [] more w listed d = absurd (cc)
  surviving-listed n (m ∷ ms) more w listed d = elim (Bool-cases (m.name == n)) [
    | inl here ↦ rw (same_endpoint n m here w.0 d, here)
    | inr later ↦ elim (Bool-cases (contains m.endpoint_name deleted)) [
      | inl gone ↦ rw gone (surviving-listed n ms more w.1 (rw later at listed) d)
      | inr stays ↦ rw (stays, later) (surviving-listed n ms more w.1 (rw later at listed) d)
    ]
  ]

pub names-map :
    (checker : String) (ms : List Manager) → names (map (set_checker checker) ms) ≡ names ms
unfolding names
names-map checker [] = refl
names-map checker (m ∷ ms) = ap (◌∷◌ m.name) (names-map checker ms)

pub map-IsWellNamed :
    (checker : String) (ms : List Manager)
    → All IsWellNamed ms
    → All IsWellNamed (map (set_checker checker) ms)
map-IsWellNamed checker [] w = tt
map-IsWellNamed checker (m ∷ ms) w = (w.0, map-IsWellNamed checker ms w.1)

-- Every manager that a plan creates carries its endpoint in its name.
plan_endpoint-IsWellNamed :
    (generation : ℕ) (processor checker name : String) (c : EndpointConfig) (p : Plan)
    → All IsWellNamed p.created
    → All IsWellNamed (plan_endpoint generation processor checker name c p).created
unfolding plan_endpoint
plan_endpoint-IsWellNamed generation processor checker name c p w =
    elim (Bool-cases (preserved c processor (lookup name p.deleted))) [
      | inl stays ↦ rw stays w
      | inr new ↦ rw new (All-append IsWellNamed p.created _ w (refl, tt))
    ]

pub plan_from-IsWellNamed :
    (generation : ℕ) (processor checker : String) (config : List (String × EndpointConfig))
    (p : Plan)
    → All IsWellNamed p.created
    → All IsWellNamed (plan_from generation processor checker config p).created
unfolding plan_from
plan_from-IsWellNamed generation processor checker [] p w = w
plan_from-IsWellNamed generation processor checker ((name, c) ∷ rest) p w =
    plan_from-IsWellNamed generation processor checker rest _
      (plan_endpoint-IsWellNamed generation processor checker name c p w)
