-- ===== src/Orchestrator/Hotswap.antt =====
-- batchkit/orchestrator.py, `hotswap_endpoint_managers`: a changed configuration replaces the
-- managers it touches.
use batch_processing_kit.Prelude.{
  ℕ, ◌+◌, Bool, false, not, ◌&&◌, List, [], ◌∷◌, ◌++◌, map, Option, none, some, String,
  if◌then◌else◌, ◌==◌, string_eq,
}
use batch_processing_kit.Prelude.Dict.{contains, lookup, insert, erase, keys, add}
use batch_processing_kit.WorkItem.{WorkItemRequest}
use batch_processing_kit.Endpoint.{
  EndpointConfig, config_beq, Manager, ManagerName, manager_name_eq, BatchType,
}
use batch_processing_kit.Orchestrator.{
  Orchestrator, Method, key_error, return, raise, modify, self, ◌>>=◌, ◌>>◌, push_work,
}

-- How `load_configuration` ends: with the endpoints, or with an InvalidConfigurationError.
pub data Loaded : Type 0 where
  loaded : List (String × EndpointConfig) → Loaded
  invalid_configuration : Loaded

-- The processor and the status checker for the type of the batch that is being processed.
unfoldable pub processor_of : Option BatchType → String
processor_of none = "StubWorkItemProcessor"
processor_of (some t) = t.processor

unfoldable pub checker_of : Option BatchType → String
checker_of none = "UnknownEndpointStatusChecker"
checker_of (some t) = t.status_checker

-- `{em.endpoint_name: em for em in self._endpoint_managers}`
unfoldable pub by_endpoint : List Manager → List (String × Manager) → List (String × Manager)
by_endpoint [] d = d
by_endpoint (m ∷ ms) d = by_endpoint ms (insert m.endpoint_name m d)

-- An existing manager that the new configuration leaves as it is.
unfoldable pub preserved : EndpointConfig → String → Option Manager → Bool
preserved config processor none = false
preserved config processor (some m) =
    config_beq config m.endpoint_config && m.processor == processor && not m.stop_requested

abbrev new_manager : ℕ → String → String → String → EndpointConfig → Manager
new_manager generation processor checker name config = record {
  name = record { generation = generation; endpoint = name };
  endpoint_name = name;
  endpoint_config = config;
  processor = processor;
  status_checker = checker;
  stop_requested = false;
}

-- What the loop over the configuration decides: the managers to delete, and the endpoints
-- that want a new one.
pub record Plan : Type 0 where
  pub deleted : List (String × Manager)
  pub created : List Manager

unfoldable pub plan_endpoint : ℕ → String → String → String → EndpointConfig → Plan → Plan
plan_endpoint generation processor checker name config p =
    if preserved config processor (lookup name p.deleted)
    then record p { deleted = erase name p.deleted }
    else record p {
      created = p.created ++ new_manager generation processor checker name config ∷ [];
    }

unfoldable pub plan_from : ℕ → String → String → List (String × EndpointConfig) → Plan → Plan
plan_from generation processor checker [] p = p
plan_from generation processor checker ((name, config) ∷ rest) p =
    plan_from generation processor checker rest
      (plan_endpoint generation processor checker name config p)

-- Names of the deleted managers join `_old_managers`. Their objects are dropped with a stop
-- request, and are not part of the state after that.
unfoldable pub retire : List String → List Manager → List ManagerName → List ManagerName
retire deleted [] old = old
retire deleted (m ∷ ms) old =
    retire deleted ms (if contains m.endpoint_name deleted then add m.name old else old)

unfoldable pub surviving : List String → List Manager → List Manager
surviving deleted [] = []
surviving deleted (m ∷ ms) =
    if contains m.endpoint_name deleted then surviving deleted ms else m ∷ surviving deleted ms

-- The copies of `_in_progress` and `_in_progress_owner` that the loop edits.
pub record Copies : Type 0 where
  pub work : List (String × WorkItemRequest)
  pub owner : List (String × Manager)

abbrev pub freed : List String → Option Manager → Method Bool
freed deleted none = raise key_error
freed deleted (some m) = return (contains m.endpoint_name deleted)

unfoldable pub release_from : List String → List (String × WorkItemRequest) → Copies → Method Copies
release_from deleted [] c = return c
release_from deleted ((f, w) ∷ rest) c = do
  o ← self
  free ← freed deleted (lookup f o.in_progress_owner)
  modify (λ o. if free then push_work w o else o)
  release_from deleted rest
      (if free then record { work = erase f c.work; owner = erase f c.owner } else c)

unfoldable pub plan : List (String × EndpointConfig) → Orchestrator → Plan
plan config o =
    plan_from o.endpoint_generation (processor_of o.on_batch_type) (checker_of o.on_batch_type)
      config (record { deleted = by_endpoint o.endpoint_managers []; created = [] })

abbrev pub set_checker : String → Manager → Manager
set_checker checker m = record m { status_checker = checker }

-- The work that a plan sets free, and the managers that it leaves.
unfoldable pub carry_out : Plan → Method (Unit {0})
carry_out p = do
  let deleted = keys p.deleted
  modify (λ o. record o { endpoint_generation = o.endpoint_generation + 1 })
  modify (λ o. record o { old_managers = retire deleted o.endpoint_managers o.old_managers })
  o ← self
  c ←
      release_from deleted o.in_progress
        (record { work = o.in_progress; owner = o.in_progress_owner })
  modify (λ o. record o {
    in_progress = c.work;
    in_progress_owner = c.owner;
    endpoint_managers =
        map (set_checker (checker_of o.on_batch_type))
          (surviving deleted o.endpoint_managers ++ p.created);
  })

-- The second test of `_stop_requested` is left out: nothing can set it under the lock.
unfoldable pub hotswap_endpoint_managers : Loaded → Method (Unit {0})
hotswap_endpoint_managers invalid_configuration = return tt
hotswap_endpoint_managers (loaded config) = do
  o ← self
  if o.stop_requested then return tt else carry_out (plan config o)
