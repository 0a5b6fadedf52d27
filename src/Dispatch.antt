-- ===== src/Dispatch.antt =====
-- batchkit/batch_request.py and batchkit/work_item_processor.py: which class of batch request takes a
-- submission or a configuration, and which work items a processor takes.
use batch_processing_kit.Prelude.{
  Bool, false, not, ◌&&◌, List, [], ◌∷◌, ◌++◌, Option, none, some, String, if◌then◌else◌, ◌==◌,
  string_eq,
}
use batch_processing_kit.Prelude.Dict.{contains}

-- What the search finds out about an element of a module.
pub record Element : Type 0 where
  pub element_name : String
  pub type_name : String
  pub is_strict_subtype : Bool
  pub overrides_from_json : Bool
  pub overrides_from_config : Bool
  pub config_annotation : Option String

pub record ModuleInfo : Type 0 where
  pub has_request_name : Bool
  pub is_package : Bool
  pub elements : List Element

abbrev subtypes : List Element → List Element
subtypes [] = []
subtypes (e ∷ es) =
    if not (e.element_name == "sys") && e.is_strict_subtype then e ∷ subtypes es else subtypes es

-- `find_subtypes` over the modules on the path; `has_request_name` is "batch_request" in the name.
unfoldable pub find_subtypes : List ModuleInfo → List Element
find_subtypes [] = []
find_subtypes (m ∷ modules) =
    (if not m.is_package && m.has_request_name then subtypes m.elements else [])
    ++ find_subtypes modules

-- The first candidate of a class name.
unfoldable pub first_named : String → List Element → Option Element
first_named name [] = none
first_named name (c ∷ candidates) =
    if name == c.type_name then some c else first_named name candidates

-- The class whose `from_json` is called; `none` is a BadRequestError. `overrides_from_json` is an
-- override that takes one argument.
abbrev overriding : Option Element → Option Element
overriding none = none
overriding (some c) = if c.overrides_from_json then some c else none

unfoldable pub from_json_class : List ModuleInfo → Option String → Option Element
from_json_class modules none = none
from_json_class modules (some type_name) =
    overriding (first_named type_name (find_subtypes modules))

abbrev takes_config : String → Element → Bool
takes_config config_type c =
    c.overrides_from_config && elim c.config_annotation [ none ↦ false | some t ↦ t == config_type ]

-- The loop of `from_config`: the last candidate whose signature takes the type of the configuration, by its name.
-- `config_annotation` is `none` where the arguments or the type of `files` are not those expected.
unfoldable pub last_taking : String → Option Element → List Element → Option Element
last_taking config_type cls [] = cls
last_taking config_type cls (c ∷ candidates) =
    last_taking config_type (if takes_config config_type c then some c else cls) candidates

unfoldable pub from_config_class : List ModuleInfo → String → Option Element
from_config_class modules config_type = last_taking config_type none (find_subtypes modules)

-- `WorkItemProcessor.process`: the arguments that default to those of the process.
abbrev pub or_default {ℓ} : {A : Type ℓ} → Option A → A → A
or_default none a = a
or_default (some x) a = x

pub data Processed {ℓ} (A : Type ℓ) : Type ℓ where
  result : A → Processed A
  bad_request : Processed A
  raised : Processed A

abbrev pub outcome {ℓ} : {A : Type ℓ} → Option A → Processed A
outcome none = raised
outcome (some a) = result a

-- `process_impl` takes the log queue, the cancellation token and the lock; `none` is an exception,
-- which is raised again.
unfoldable pub process {ℓ} :
    {A C : Type ℓ}
    → List String
    → (C → C → C → Option A)
    → String
    → Option C
    → Option C
    → Option C
    → C
    → C
    → C
    → Processed A
process types process_impl item_type leq ct lock scope_leq scope_ct scope_lock =
    if contains item_type types
    then outcome (
        process_impl (or_default leq scope_leq) (or_default ct scope_ct)
          (or_default lock scope_lock))
    else bad_request

-- The processor that takes no work item.
abbrev pub stub_work_item_types : List String
stub_work_item_types = []
