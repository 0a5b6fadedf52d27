-- ===== src/Client.antt =====
-- batchkit/client.py: the kinds of client, and their signals.
pub mod Sync
pub mod Daemon
pub mod OneShot
pub mod Main
pub mod Started
use batch_processing_kit.Prelude.{
  ℕ, zero, suc, ◌≡◌, Bool, true, false, List, [], ◌∷◌, Option, none, some, String, if◌then◌else◌,
  length, ◌==◌, nat_eq, string_eq,
}

pub data ClientType : Type 0 where
  one_shot daemon generic : ClientType

-- `Client.create`; `none` is the InvalidConfigurationError of any other text.
unfoldable pub create : String → Option ClientType
create client_type =
    if client_type == "ONESHOT"
    then some one_shot
    else if client_type == "DAEMON"
    then some daemon
    else if client_type == "APISERVER"
    then some generic
    else none

-- Whether a client has the HTTP endpoints, and the health probe.
abbrev pub requires_flask_functional : ClientType → Bool
requires_flask_functional generic = true
requires_flask_functional t = false

abbrev pub requires_flask_healthprobe : ClientType → Bool
requires_flask_healthprobe one_shot = false
requires_flask_healthprobe t = true

pub data Signal : Type 0 where
  sigint sighup sigterm other_signal : Signal

-- What a client's signal handlers change: whether the orchestrator was asked to stop, whether the loop
-- of the run has to end, whether new files are noticed, and what the run returns.
pub record Flags : Type 0 where
  pub orchestrator_stop : Bool
  pub stop_evt : Bool
  pub notified : Bool
  pub is_success : Bool

pub data Handled : Type 0 where
  handled : Flags → Handled
  keyboard_interrupt : Flags → Handled
  assertion_error : Flags → Handled

-- The handler of the subclass, after that of `Client`, which has taken SIGINT.
abbrev subtype_handler : ClientType → Signal → Flags → Handled
subtype_handler generic _ s = handled (record s { stop_evt = true })
subtype_handler one_shot _ s = handled (record s { orchestrator_stop = true })
subtype_handler daemon sighup s = handled (record s { notified = false; stop_evt = true })
subtype_handler daemon sigterm s =
    handled
      (record { orchestrator_stop = true; stop_evt = true; notified = false; is_success = false })
subtype_handler daemon _ s = assertion_error (record s { notified = false; stop_evt = true })

unfoldable pub handle_signal : ClientType → Signal → Flags → Handled
handle_signal t sigint s = keyboard_interrupt (record s { orchestrator_stop = true })
handle_signal t sighup s = subtype_handler t sighup s
handle_signal t sigterm s = subtype_handler t sigterm s
handle_signal t other_signal s = subtype_handler t other_signal s
