-- ===== src/Terminal/Input.antt =====
-- How an input command ends after its run, and what callers read of the run
-- (src/core/driver-terminal-state.ts).
use mosoo_agent_driver.Base.{ℕ, String, Option, none, some, if◌then◌else◌, Json, Result, ok, ◌>>=◌}
use mosoo_agent_driver.Terminal.{
  DriverRunTerminalStatus, completed, cancelled, DriverRunTicket, DriverRunTerminalState, selected,
  acked, DriverTerminalStateMachine, TerminalError,
}
use mosoo_agent_driver.Terminal.Run.{require_run, matches}

pub data DriverInputOutcome : Type 0 where
  resolved : DriverInputOutcome
  input_cancelled : DriverInputOutcome
  rejected : Json → DriverInputOutcome

-- the `failure` of a failed settlement: the error of the outcome, or one of the three messages
pub data SettlementFailure : Type 0 where
  outcome_error : Json → SettlementFailure
  without_terminal terminal_not_acknowledged : SettlementFailure
  cancellation_settled_with resolved_after : DriverRunTerminalStatus → SettlementFailure

pub data DriverInputSettlement : Type 0 where
  settled_resolved settled_cancelled : DriverInputSettlement
  settled_failed : SettlementFailure → DriverInputSettlement

settle_status : DriverInputOutcome → DriverRunTerminalStatus → DriverInputSettlement
settle_status (rejected e) status = settled_failed (outcome_error e)
settle_status input_cancelled cancelled = settled_cancelled
settle_status input_cancelled status = settled_failed (cancellation_settled_with status)
settle_status resolved completed = settled_resolved
settle_status resolved status = settled_failed (resolved_after status)

settle_on : DriverInputOutcome → Option DriverRunTerminalState → DriverInputSettlement
unfolding settle_status
settle_on (rejected e) terminal = settled_failed (outcome_error e)
settle_on outcome none = settled_failed without_terminal
settle_on outcome (some (selected v)) = settled_failed terminal_not_acknowledged
settle_on outcome (some (acked r v)) = settle_status outcome v.status

unfoldable pub settle_input :
    DriverRunTicket
    → DriverInputOutcome
    → DriverTerminalStateMachine
    → Result TerminalError DriverInputSettlement
unfolding require_run settle_on
settle_input ticket outcome s = do
  active ← require_run ticket s
  ok (settle_on outcome active.terminal)

pub record DriverRunSnapshot : Type 0 where
  pub cancellation : Option String
  pub revision : ℕ
  pub run_id : String
  pub terminal : Option DriverRunTerminalState

unfoldable pub snapshot_run : Option String → DriverTerminalStateMachine → Option DriverRunSnapshot
snapshot_run run_id s = elim s.active_run [
  | none ↦ none
  | some active ↦
      if matches run_id active.run_id
      then some (record {
        cancellation = active.cancellation_claim;
        revision = active.revision;
        run_id = active.run_id;
        terminal = active.terminal;
      })
      else none
]
