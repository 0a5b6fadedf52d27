-- ===== src/Endpoint.antt =====
-- Endpoints as the orchestrator sees them: batchkit/endpoint_config.py and the fields of
-- batchkit/endpoint_manager.py that the orchestrator reads or writes.
pub mod Capacity
pub mod Bounds
use batch_processing_kit.Prelude.{
  ℕ, ◌≡◌, ◌↔◌, Bool, true, false, not, ◌&&◌, Option, none, some, String, arith, Eq, ◌==◌, nat_eq,
  string_eq,
}

-- A validated configuration. `rtf` is a float that is only compared, here in thousandths.
pub record EndpointConfig : Type 0 where
  pub host : String
  pub port : ℕ
  pub is_secure : Bool
  pub is_cloud_service : Bool
  pub concurrency : ℕ
  pub rtf : ℕ
  pub subscription : Option String
  pub language : String
  pub start_concurrency : ℕ

-- The name "HotswapGen{generation}_{endpoint}"; a generation has no underscore, so that the
-- name determines both.
pub record ManagerName : Type 0 where
  pub generation : ℕ
  pub endpoint : String

abbrev manager_name_beq : ManagerName → ManagerName → Bool
manager_name_beq a b = a.generation == b.generation && a.endpoint == b.endpoint

pub manager_name_beq_iff : (a b : ManagerName) → (manager_name_beq a b ≡ true) ↔ (a ≡ b)
manager_name_beq_iff a b =
    ground
      (arith, nat_eq.beq_iff a.generation b.generation, string_eq.beq_iff a.endpoint b.endpoint)

instance abbrev pub manager_name_eq : Eq ManagerName
manager_name_eq = record { beq = manager_name_beq; beq_iff = manager_name_beq_iff }

abbrev bool_beq : Bool → Bool → Bool
bool_beq true b = b
bool_beq false b = not b

abbrev text_beq : Option String → Option String → Bool
text_beq none none = true
text_beq (some a) (some b) = a == b
text_beq _ _ = false

-- `==` of two configurations, which are dictionaries with the same keys.
unfoldable pub config_beq : EndpointConfig → EndpointConfig → Bool
config_beq a b =
    a.host == b.host
    && a.port == b.port
    && bool_beq a.is_secure b.is_secure
    && bool_beq a.is_cloud_service b.is_cloud_service
    && a.concurrency == b.concurrency
    && a.rtf == b.rtf
    && text_beq a.subscription b.subscription
    && a.language == b.language
    && a.start_concurrency == b.start_concurrency

-- What a type of BatchRequest brings: the class names of its processor and status checker.
pub record BatchType : Type 0 where
  pub type_name : String
  pub processor : String
  pub status_checker : String

pub record Manager : Type 0 where
  pub name : ManagerName
  pub endpoint_name : String
  pub endpoint_config : EndpointConfig
  pub processor : String
  pub status_checker : String
  pub stop_requested : Bool
