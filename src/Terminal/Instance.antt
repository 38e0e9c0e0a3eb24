-- ===== src/Terminal/Instance.antt =====
-- The shutdown record and the terminal of the driver instance
-- (src/core/driver-terminal-state.ts).
use mosoo_agent_driver.Base.{
  String, Bool, true, false, Option, none, some, or_else, Result, ok, guard, require, ◌>>=◌, ◌>>◌,
}
use mosoo_agent_driver.Terminal.{
  DriverInstanceTerminal, instance_completed, instance_failed, DriverInstanceTerminalState, opened,
  instance_selected, instance_acked, RunError, Failure, ShutdownState, ActiveRun,
  DriverTerminalStateMachine, TerminalError, shutdown_not_requested, instance_conflict,
  instance_not_selected, not_the_unpublished_terminal, same_instance,
}

abbrev fresh_shutdown : ShutdownState
fresh_shutdown = record { cleanup_completed = false; failure = none }

unfoldable pub request_shutdown : DriverTerminalStateMachine → DriverTerminalStateMachine
request_shutdown s = record s { shutdown_state = some (or_else s.shutdown_state fresh_shutdown) }

-- `left ??= right`
abbrev pub keep_first : Option Failure → Failure → Option Failure
keep_first none f = some f
keep_first (some known) f = some known

-- The run that the failure is ascribed to is an argument with the active run as its default.
unfoldable pub record_failure :
    RunError → Option String → DriverTerminalStateMachine → DriverTerminalStateMachine
record_failure error run_id s =
    let shutdown = or_else s.shutdown_state fresh_shutdown in
    record s {
      shutdown_state = some (record shutdown {
        failure = keep_first shutdown.failure (record { error = error; run_id = run_id });
      });
    }

unfoldable pub mark_cleanup_completed :
    DriverTerminalStateMachine → Result TerminalError DriverTerminalStateMachine
mark_cleanup_completed s = do
  shutdown ← require s.shutdown_state shutdown_not_requested
  ok (record s { shutdown_state = some (record shutdown { cleanup_completed = true }) })

unfoldable pub shutdown_snapshot : DriverTerminalStateMachine → Option ShutdownState
shutdown_snapshot s = s.shutdown_state

pub data InstanceSelection : Type 0 where
  instance_already_acked instance_pending instance_newly_selected : InstanceSelection

select_instance :
    DriverInstanceTerminalState
    → DriverInstanceTerminal
    → DriverTerminalStateMachine
    → Result TerminalError (DriverTerminalStateMachine × InstanceSelection)
select_instance opened terminal s =
    ok (record s { instance_terminal = instance_selected terminal }, instance_newly_selected)
select_instance (instance_selected known) terminal s = do
  guard (same_instance known terminal) instance_conflict
  ok (s, instance_pending)
select_instance (instance_acked known) terminal s = do
  guard (same_instance known terminal) instance_conflict
  ok (s, instance_already_acked)

unfoldable pub select_instance_terminal :
    DriverInstanceTerminal
    → DriverTerminalStateMachine
    → Result TerminalError (DriverTerminalStateMachine × InstanceSelection)
unfolding select_instance
select_instance_terminal terminal s = select_instance s.instance_terminal terminal s

abbrev pub chosen_instance : DriverInstanceTerminalState → Option DriverInstanceTerminal
chosen_instance opened = none
chosen_instance (instance_selected t) = some t
chosen_instance (instance_acked t) = some t

unfoldable pub ack_instance_terminal :
    DriverInstanceTerminal
    → DriverTerminalStateMachine
    → Result TerminalError DriverTerminalStateMachine
ack_instance_terminal terminal s = do
  known ← require (chosen_instance s.instance_terminal) instance_not_selected
  guard (same_instance known terminal) instance_conflict
  ok (record s { instance_terminal = instance_acked known })

abbrev unpublished : DriverInstanceTerminalState → DriverInstanceTerminal → Bool
unpublished (instance_selected known) terminal = same_instance known terminal
unpublished _ terminal = false

unfoldable pub abandon_instance_terminal :
    DriverInstanceTerminal
    → DriverTerminalStateMachine
    → Result TerminalError DriverTerminalStateMachine
abandon_instance_terminal terminal s = do
  guard (unpublished s.instance_terminal terminal) not_the_unpublished_terminal
  ok (record s { instance_terminal = opened })

unfoldable pub snapshot_instance : DriverTerminalStateMachine → DriverInstanceTerminalState
snapshot_instance s = s.instance_terminal

abbrev pub instance_run_id : DriverInstanceTerminal → String
instance_run_id (instance_completed run_id) = run_id
instance_run_id (instance_failed error run_id) = run_id

-- `left ?? right` where the right side may be null too
abbrev pub or_none : Option String → Option String → Option String
or_none none b = b
or_none (some a) b = some a

abbrev failure_run_id : Option ShutdownState → Option String
failure_run_id none = none
failure_run_id (some shutdown) = elim shutdown.failure [ none ↦ none | some f ↦ f.run_id ]

abbrev active_run_id : Option ActiveRun → Option String
active_run_id none = none
active_run_id (some active) = some active.run_id

unfoldable pub terminal_run_id : Option String → DriverTerminalStateMachine → Option String
terminal_run_id fallback s = elim (chosen_instance s.instance_terminal) [
  | some t ↦ some (instance_run_id t)
  | none ↦
      or_none (failure_run_id s.shutdown_state)
        (or_none (active_run_id s.active_run) (or_none s.last_owned_run_id fallback))
]
