-- ===== src/System/Held.antt =====
-- The invariant of the system: outstanding work has an owner, or its report is going to be ignored
-- (batchkit/orchestrator.py, batchkit/endpoint_manager.py).
use batch_processing_kit.Prelude.{
  ℕ, zero, suc, ◌+◌, ◌≤◌, ◌≡◌, refl, ◌⊎◌, inl, inr, true, false, not, ◌&&◌, ◌||◌, List, [], ◌∷◌,
  none, some, String, if◌then◌else◌, arith, ◌==◌, string_eq, All, subst,
}
use batch_processing_kit.Prelude.Dict.{contains, lookup, lookup-contains, keys}
use batch_processing_kit.Endpoint.{Manager, manager_name_eq}
use batch_processing_kit.Orchestrator.{Orchestrator}
use batch_processing_kit.Orchestrator.Invariant.{Inv}
use batch_processing_kit.Orchestrator.Reports.{is_ignored}
use batch_processing_kit.Orchestrator.Lifecycle.{IsIdle}
use batch_processing_kit.System.{System, IsWellNamed, names, get_elem?, remove_at}

pub record Holds (o : Orchestrator) (m : Manager) (f : String) : Type 0 where
  pub owner : lookup f o.in_progress_owner ≡ some m
  pub listed : contains m.name (names o.endpoint_managers) ≡ true
  pub well_named : IsWellNamed m

abbrev pub Held : Orchestrator → Manager × String → Type 0
Held o (m, f) = (is_ignored m o ≡ true) ⊎ Holds o m f

-- How much outstanding work on a file has a report that counts.
unfoldable pub live : String → Orchestrator → List (Manager × String) → ℕ
live f o [] = 0
live f o ((m, g) ∷ work) = (if not (is_ignored m o) && g == f then 1 else 0) + live f o work

pub record SystemInv (s : System) : Type 0 where
  pub inv : Inv s.orchestrator
  pub well_named : All IsWellNamed s.orchestrator.endpoint_managers
  pub held : All (Held s.orchestrator) s.outstanding
  pub apart : (f : String) → live f s.orchestrator s.outstanding ≤ 1
  pub completed :
      s.orchestrator.batch_completion ≡ true
      → (s.orchestrator.stop_requested ≡ true) ⊎ IsIdle s.orchestrator
  pub unstarted :
      s.orchestrator.on_batch_id ≡ none
      → (s.orchestrator.stop_requested ≡ true) ⊎ IsIdle s.orchestrator

module _ (o o' : Orchestrator)
    (ignored : (m : Manager) → is_ignored m o ≡ true → is_ignored m o' ≡ true) where
  -- What is ignored stays ignored, so that no more work counts than did.
  pub live_mono : (f : String) (work : List (Manager × String)) → live f o' work ≤ live f o work
  unfolding live
  live_mono f [] = omega arith
  live_mono f ((m, g) ∷ work) = ground (arith, ignored m, live_mono f work)

-- A file that nobody owns has no work whose report counts.
pub live-zero :
    (f : String) (o : Orchestrator) (work : List (Manager × String))
    → contains f (keys o.in_progress_owner) ≡ false
    → All (Held o) work
    → live f o work ≡ 0
unfolding live
live-zero f o [] free h = refl
live-zero f o ((m, g) ∷ work) free ((inl ignored), rest) =
    ground (arith, live-zero f o work free rest)
live-zero f o ((m, g) ∷ work) free ((inr holds), rest) = ground (
  arith,
  live-zero f o work free rest,
  lookup-contains g o.in_progress_owner m holds.owner,
  string_eq.beq_iff g f,
)

-- An outstanding piece of work, apart from the others.
pub live-remove_at :
    (f : String) (o : Orchestrator) (work : List (Manager × String)) (n : ℕ) (m : Manager)
    (g : String)
    → get_elem? work n ≡ some (m, g)
    → live f o work
      ≡ (if not (is_ignored m o) && g == f then 1 else 0) + live f o (remove_at work n)
unfolding live
live-remove_at f o [] n m g h = absurd (cc)
live-remove_at f o ((k, j) ∷ work) zero m g h = ground arith
live-remove_at f o ((k, j) ∷ work) (suc n) m g h = omega (arith, live-remove_at f o work n m g h)

module _ {ℓ κ} {A : Type ℓ} (P : A → Type κ) where
  pub All-remove_at : (xs : List A) (n : ℕ) → All P xs → All P (remove_at xs n)
  All-remove_at [] n h = tt
  All-remove_at (x ∷ xs) zero h = h.1
  All-remove_at (x ∷ xs) (suc n) h = (h.0, All-remove_at xs n h.1)

  pub All-get_elem? : (xs : List A) (n : ℕ) (x : A) → All P xs → get_elem? xs n ≡ some x → P x
  All-get_elem? [] n x h e = absurd (cc)
  All-get_elem? (y ∷ xs) zero x h e = subst P (cc) h.0
  All-get_elem? (y ∷ xs) (suc n) x h e = All-get_elem? xs n x h.1 e

-- Once a file has been reported, no work on it has a report that counts.
pub live-zero_apart :
    (o : Orchestrator) (f : String) (work : List (Manager × String))
    → live f o work ≡ 0
    → All (λ e. (is_ignored e.0 o || not (e.1 == f)) ≡ true) work
unfolding live
live-zero_apart o f [] h = tt
live-zero_apart o f ((m, g) ∷ work) h = (ground arith, live-zero_apart o f work (ground arith))
