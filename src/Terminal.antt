-- ===== src/Terminal.antt =====
-- Which terminal a run and the driver instance end with
-- (src/core/driver-terminal-state.ts, with the cancellation error of
-- src/core/driver-turn-cancelled-error.ts). A method that throws returns `err`: it throws before it
-- writes. `structuredClone` and `Object.freeze` copies are the values themselves. An abort signal is
-- known by the number of its controller, which counts the calls of `begin_run`.
pub mod Run
pub mod Input
pub mod Instance
pub mod Calls
pub mod Decided
pub mod Shutdown
mod Examples
use mosoo_agent_driver.Base.{
  ℕ, String, Bool, true, false, ◌&&◌, Option, none, some, ◌==◌, str_eq, same_bool, if◌then◌else◌,
  Json,
}

pub data DriverRunTerminalStatus : Type 0 where
  cancelled completed failed : DriverRunTerminalStatus

pub record DriverRunTicket : Type 0 where
  pub revision : ℕ
  pub run_id : String
  pub signal : ℕ

pub record DriverRunTerminalIdentity : Type 0 where
  pub event : Json
  pub run_id : String
  pub source_event_id : String
  pub status : DriverRunTerminalStatus

pub record DriverEventReceipt : Type 0 where
  pub event_id : String
  pub seq : ℕ
  pub kind : String

pub data DriverRunTerminalState : Type 0 where
  selected : DriverRunTerminalIdentity → DriverRunTerminalState
  acked : DriverEventReceipt → DriverRunTerminalIdentity → DriverRunTerminalState

pub data DriverTurnCancellationSource : Type 0 where
  session_stop shutdown turn_cancel : DriverTurnCancellationSource

pub record DriverTurnCancelledError : Type 0 where
  pub message : String
  pub resume_allowed : Bool

pub record ActiveRun : Type 0 where
  pub signal : ℕ
  pub abort_reason : Option DriverTurnCancelledError
  pub cancellation_claim : Option String
  pub revision : ℕ
  pub run_id : String
  pub terminal : Option DriverRunTerminalState

pub record RunError : Type 0 where
  pub code : String
  pub details : Json
  pub message : String
  pub retryable : Bool

pub data DriverInstanceTerminal : Type 0 where
  instance_completed : String → DriverInstanceTerminal
  instance_failed : RunError → String → DriverInstanceTerminal

pub data DriverInstanceTerminalState : Type 0 where
  opened : DriverInstanceTerminalState
  instance_selected instance_acked : DriverInstanceTerminal → DriverInstanceTerminalState

pub record RunTerminal : Type 0 where
  pub run_id : String
  pub status : DriverRunTerminalStatus

pub record Failure : Type 0 where
  pub error : RunError
  pub run_id : Option String

pub record ShutdownState : Type 0 where
  pub cleanup_completed : Bool
  pub failure : Option Failure

pub record DriverTerminalStateMachine : Type 0 where
  pub active_run : Option ActiveRun
  pub instance_terminal : DriverInstanceTerminalState
  pub last_owned_run_id : Option String
  pub last_run_terminal : Option RunTerminal
  pub revision : ℕ
  pub shutdown_state : Option ShutdownState
  pub controllers : ℕ

pub data TerminalError : Type 0 where
  run_already_active instance_terminal_selected stale_ticket : TerminalError
  handshake_conflict wrong_run empty_source_event_id terminal_conflict : TerminalError
  terminal_not_selected receipt_mismatch receipt_conflict not_the_unpublished_terminal :
      TerminalError
  terminal_not_acked shutdown_not_requested instance_conflict instance_not_selected : TerminalError

unfoldable pub new : DriverTerminalStateMachine
new = record {
  active_run = none;
  instance_terminal = opened;
  last_owned_run_id = none;
  last_run_terminal = none;
  revision = 0;
  shutdown_state = none;
  controllers = 0;
}

-- `new DriverTurnCancelledError(reason, source)`
abbrev pub cancelled_error : String → DriverTurnCancellationSource → DriverTurnCancelledError
cancelled_error reason turn_cancel = record { message = reason; resume_allowed = true }
cancelled_error reason _ = record { message = reason; resume_allowed = false }

abbrev pub is_turn_cancel : DriverTurnCancellationSource → Bool
is_turn_cancel turn_cancel = true
is_turn_cancel _ = false

abbrev pub same_terminal_status : DriverRunTerminalStatus → DriverRunTerminalStatus → Bool
same_terminal_status cancelled cancelled = true
same_terminal_status completed completed = true
same_terminal_status failed failed = true
same_terminal_status _ _ = false

-- `isDeepStrictEqual` of two run terminals
abbrev pub same_terminal : DriverRunTerminalIdentity → DriverRunTerminalIdentity → Bool
same_terminal a b =
    str_eq a.event b.event
    && str_eq a.run_id b.run_id
    && str_eq a.source_event_id b.source_event_id
    && same_terminal_status a.status b.status

abbrev pub same_receipt : DriverEventReceipt → DriverEventReceipt → Bool
same_receipt a b = str_eq a.event_id b.event_id && a.seq == b.seq && str_eq a.kind b.kind

abbrev pub same_run_error : RunError → RunError → Bool
same_run_error a b =
    str_eq a.code b.code
    && str_eq a.details b.details
    && str_eq a.message b.message
    && same_bool a.retryable b.retryable

abbrev pub same_instance : DriverInstanceTerminal → DriverInstanceTerminal → Bool
same_instance (instance_completed a) (instance_completed b) = str_eq a b
same_instance (instance_failed e a) (instance_failed f b) = same_run_error e f && str_eq a b
same_instance _ _ = false

abbrev pub terminal_value : DriverRunTerminalState → DriverRunTerminalIdentity
terminal_value (selected v) = v
terminal_value (acked r v) = v

abbrev pub is_open : DriverInstanceTerminalState → Bool
is_open opened = true
is_open _ = false
