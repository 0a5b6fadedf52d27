-- ===== src/Config.antt =====
-- batchkit/endpoint_config.py: the configuration of the endpoints, loaded and validated. The schema's
-- validator (cerberus) and the parsers of JSON and YAML are parameters.
pub mod Schema
use batch_processing_kit.Prelude.{
  ◌≡◌, refl, Bool, true, false, ◌&&◌, List, [], ◌∷◌, Option, none, some, String, if◌then◌else◌,
  string_eq, arith, Bool-cases, Option-cases, inl, inr, ap, sym, ◌∙◌,
}
use batch_processing_kit.Prelude.Dict.{keys}

-- `Validator(endpoint_schema)`: `normalized`, and `validated`, which is None for a bad document.
pub record Validator : Type 1 where
  pub Doc : Type 0
  pub empty : Doc
  pub normalized : Doc → Doc
  pub validated : Doc → Option Doc

-- The file: absent, of an extension that is not supported, refused by its parser, or parsed to a
-- dictionary or to something else.
pub data ConfigFile (v : Validator) : Type 0 where
  absent : ConfigFile v
  unsupported : ConfigFile v
  unparsed : ConfigFile v
  no_dict : ConfigFile v
  dict : List (String × v.Doc) → ConfigFile v

pub data Loaded (v : Validator) : Type 0 where
  loaded : List (String × v.Doc) → Loaded v
  invalid_configuration : Loaded v
  attribute_error : Loaded v

module _ (v : Validator) where
  -- The endpoints that validate, and whether some do not.
  abbrev keep_valid :
      String → Option v.Doc → List (String × v.Doc) × Bool → List (String × v.Doc) × Bool
  keep_valid k none (rest, errors) = (rest, true)
  keep_valid k (some doc) (rest, errors) = ((k, doc) ∷ rest, errors)

  unfoldable pub validate_all : List (String × v.Doc) → List (String × v.Doc) × Bool
  validate_all [] = ([], false)
  validate_all ((k, doc) ∷ data_rest) =
      keep_valid k (v.validated (v.normalized doc)) (validate_all data_rest)

  unfoldable pub normalize_validate_config : List (String × v.Doc) → Bool → Loaded v
  normalize_validate_config config_data strict =
      let (valid, errors) = validate_all config_data in
      if strict && errors then invalid_configuration else loaded valid

  -- The data that a file gives, which is None where `items` fails, and whether there was an error.
  abbrev pub config_data : ConfigFile v → Option (List (String × v.Doc)) × Bool
  config_data absent = (some (("localhost", v.empty) ∷ []), true)
  config_data unsupported = (some [], true)
  config_data unparsed = (some [], true)
  config_data no_dict = (none, false)
  config_data (dict d) = (some d, false)

  abbrev validated_data : Bool → Option (List (String × v.Doc)) → Loaded v
  validated_data strict none = attribute_error
  validated_data strict (some d) = normalize_validate_config d strict

  unfoldable pub load_configuration : ConfigFile v → Bool → Loaded v
  load_configuration file strict =
      if strict && (config_data file).1
      then invalid_configuration
      else validated_data strict (config_data file).0

  bad_pair :
      (k : String) (o : Option v.Doc) (p : List (String × v.Doc) × Bool)
      → o ≡ none
      → (keep_valid k o p).1 ≡ false
      → ⊥
  bad_pair k none (rest, errors) e h = cc
  bad_pair k (some doc) (rest, errors) e h = absurd (cc)

  good_pair :
      (k : String) (o : Option v.Doc) (doc : v.Doc) (p : List (String × v.Doc) × Bool)
      → o ≡ some doc
      → (keep_valid k o p).1 ≡ false
      → p.1 ≡ false
  good_pair k none doc (rest, errors) e h = absurd (cc)
  good_pair k (some x) doc (rest, errors) e h = h

  all_valid :
      (d : List (String × v.Doc)) → (validate_all d).1 ≡ false → keys (validate_all d).0 ≡ keys d
  unfolding validate_all
  all_valid [] h = refl
  all_valid ((k, doc) ∷ d) h = elim (Option-cases (v.validated (v.normalized doc))) [
    | inl bad ↦ absurd (bad_pair k (v.validated (v.normalized doc)) (validate_all d) bad h)
    | inr (good, e) ↦
        rw (keep_valid, e)
          (ap (◌∷◌ k)
            (all_valid d (good_pair k (v.validated (v.normalized doc)) good (validate_all d) e h)))
  ]

  abbrev accepted : Loaded v → List (String × v.Doc)
  accepted (loaded c) = c
  accepted l = []

  -- What strict loading accepts is a dictionary, and lenient loading gives the same: no endpoint of the
  -- file is left out.
  pub load_configuration-strict :
      (file : ConfigFile v) (c : List (String × v.Doc))
      → load_configuration file true ≡ loaded c
      → (load_configuration file false ≡ loaded c)
        × ((d : List (String × v.Doc)) × (file ≡ dict d) × (keys c ≡ keys d))
  unfolding load_configuration normalize_validate_config
  load_configuration-strict absent c e = absurd (ground arith)
  load_configuration-strict unsupported c e = absurd (ground arith)
  load_configuration-strict unparsed c e = absurd (ground arith)
  load_configuration-strict no_dict c e = absurd (ground arith)
  load_configuration-strict (dict d) c e = elim (Bool-cases (validate_all d).1) [
    | inl errors ↦ absurd (ground (arith, rw errors at e))
    | inr fine ↦
        let got : loaded (validate_all d).0 ≡ loaded c = rw fine at e in
        (got, (d, refl, sym (ap (λ (l : Loaded v). keys (accepted l)) got) ∙ all_valid d fine))
  ]
