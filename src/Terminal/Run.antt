-- ===== src/Terminal/Run.antt =====
-- One run: its begin, the claim of its cancellation, the selection and the acknowledgement of its
-- terminal, its release (src/core/driver-terminal-state.ts).
use mosoo_agent_driver.Base.{
  suc, String, Bool, true, false, not, ◌&&◌, Option, none, some, ◌==◌, str_eq, is_some, or_else,
  if◌then◌else◌, Result, ok, guard, require, ◌>>=◌, ◌>>◌,
}
use mosoo_agent_driver.Terminal.{
  DriverRunTerminalStatus, completed, DriverRunTicket, DriverRunTerminalIdentity,
  DriverEventReceipt, DriverRunTerminalState, selected, acked, DriverTurnCancellationSource,
  DriverTurnCancelledError, ActiveRun, RunTerminal, DriverTerminalStateMachine, TerminalError,
  run_already_active, instance_terminal_selected, stale_ticket, handshake_conflict, wrong_run,
  empty_source_event_id, terminal_conflict, terminal_not_selected, receipt_mismatch,
  receipt_conflict, not_the_unpublished_terminal, terminal_not_acked, cancelled_error,
  is_turn_cancel, same_terminal, same_receipt, terminal_value, is_open,
}

-- `#requireRun`
unfoldable pub require_run :
    DriverRunTicket → DriverTerminalStateMachine → Result TerminalError ActiveRun
require_run ticket s = do
  active ← require s.active_run stale_ticket
  guard
      (active.revision == ticket.revision
        && str_eq active.run_id ticket.run_id
        && active.signal == ticket.signal)
      stale_ticket
  ok active

unfoldable pub begin_run :
    String
    → DriverTerminalStateMachine
    → Result TerminalError (DriverTerminalStateMachine × DriverRunTicket)
begin_run run_id s = do
  guard (not (is_some s.active_run)) run_already_active
  guard (is_open s.instance_terminal) instance_terminal_selected
  let revision = suc s.revision
  let active : ActiveRun = record {
    signal = s.controllers;
    abort_reason = none;
    cancellation_claim = none;
    revision = revision;
    run_id = run_id;
    terminal = none;
  }
  ok (
    record s {
      revision = revision;
      last_owned_run_id = some run_id;
      last_run_terminal = none;
      active_run = some active;
      controllers = suc s.controllers;
    },
    record { revision = revision; run_id = run_id; signal = s.controllers },
  )

pub data CancellationClaim : Type 0 where
  already_claimed claimed terminal_selected : CancellationClaim

-- `preventResume` on the reason of an aborted signal
abbrev prevented : Option DriverTurnCancelledError → Option DriverTurnCancelledError
prevented none = none
prevented (some e) = some (record e { resume_allowed = false })

-- `claim_cancellation` behind `#requireRun`
claim_on :
    ActiveRun
    → String
    → DriverTurnCancellationSource
    → DriverTerminalStateMachine
    → DriverTerminalStateMachine × CancellationClaim
claim_on active reason source s =
    if is_some active.terminal
    then (s, terminal_selected)
    else if is_some active.cancellation_claim
    then (
      if is_turn_cancel source then s else record s {
        active_run = some (record active { abort_reason = prevented active.abort_reason });
      },
      already_claimed,
    )
    else (
      record s {
        active_run = some (record active {
          cancellation_claim = some reason;
          abort_reason = some (cancelled_error reason source);
        });
      },
      claimed,
    )

unfoldable pub claim_cancellation :
    DriverRunTicket
    → String
    → DriverTurnCancellationSource
    → DriverTerminalStateMachine
    → Result TerminalError (DriverTerminalStateMachine × CancellationClaim)
unfolding require_run claim_on
claim_cancellation ticket reason source s = do
  active ← require_run ticket s
  ok (claim_on active reason source s)

unfoldable pub current_run_id : DriverTerminalStateMachine → Option String
current_run_id s = elim s.active_run [ none ↦ none | some active ↦ some active.run_id ]

unfoldable pub remember_owned_run_id :
    String → DriverTerminalStateMachine → Result TerminalError DriverTerminalStateMachine
unfolding current_run_id
remember_owned_run_id run_id s = do
  guard (str_eq (or_else (current_run_id s) run_id) run_id) handshake_conflict
  ok (record s { last_owned_run_id = some run_id })

pub data TerminalSelection : Type 0 where
  already_acked selection_cancelled pending newly_selected : TerminalSelection

abbrev pub pending_or_acked : DriverRunTerminalState → TerminalSelection
pending_or_acked (selected v) = pending
pending_or_acked (acked r v) = already_acked

abbrev pub is_completed : DriverRunTerminalStatus → Bool
is_completed completed = true
is_completed _ = false

-- `select_run_terminal` behind `#requireRun` and the checks of the terminal alone
select_on :
    Option DriverRunTerminalState
    → ActiveRun
    → DriverRunTerminalIdentity
    → DriverTerminalStateMachine
    → Result TerminalError (DriverTerminalStateMachine × TerminalSelection)
select_on (some chosen) active terminal s = do
  guard (same_terminal (terminal_value chosen) terminal) terminal_conflict
  ok (s, pending_or_acked chosen)
select_on none active terminal s =
    if is_some active.cancellation_claim && is_completed terminal.status
    then ok (s, selection_cancelled)
    else ok (
      record s { active_run = some (record active { terminal = some (selected terminal) }) },
      newly_selected,
    )

unfoldable pub select_run_terminal :
    DriverRunTicket
    → DriverRunTerminalIdentity
    → DriverTerminalStateMachine
    → Result TerminalError (DriverTerminalStateMachine × TerminalSelection)
unfolding require_run select_on
select_run_terminal ticket terminal s = do
  active ← require_run ticket s
  guard (str_eq terminal.run_id ticket.run_id) wrong_run
  guard (not (str_eq terminal.source_event_id "")) empty_source_event_id
  select_on active.terminal active terminal s

-- `ack_run_terminal` behind the search for the terminal and the match of its event
ack_on :
    DriverRunTerminalState
    → ActiveRun
    → DriverEventReceipt
    → DriverTerminalStateMachine
    → Result TerminalError DriverTerminalStateMachine
ack_on (acked known v) active receipt s = do
  guard (same_receipt known receipt) receipt_conflict
  ok s
ack_on (selected v) active receipt s =
    ok (record s { active_run = some (record active { terminal = some (acked receipt v) }) })

unfoldable pub ack_run_terminal :
    DriverRunTicket
    → DriverEventReceipt
    → DriverTerminalStateMachine
    → Result TerminalError DriverTerminalStateMachine
unfolding require_run ack_on
ack_run_terminal ticket receipt s = do
  active ← require_run ticket s
  chosen ← require active.terminal terminal_not_selected
  guard (str_eq receipt.event_id (terminal_value chosen).source_event_id) receipt_mismatch
  ack_on chosen active receipt s

abbrev pub is_unpublished : Option DriverRunTerminalState → DriverRunTerminalIdentity → Bool
is_unpublished (some (selected v)) terminal = same_terminal v terminal
is_unpublished _ terminal = false

unfoldable pub abandon_run_terminal :
    DriverRunTicket
    → DriverRunTerminalIdentity
    → DriverTerminalStateMachine
    → Result TerminalError DriverTerminalStateMachine
unfolding require_run
abandon_run_terminal ticket terminal s = do
  active ← require_run ticket s
  guard (is_unpublished active.terminal terminal) not_the_unpublished_terminal
  ok (record s { active_run = some (record active { terminal = none }) })

-- `run_id === undefined || run_id === known`
abbrev pub matches : Option String → String → Bool
matches none known = true
matches (some run_id) known = str_eq known run_id

abbrev pub last_terminal_status :
    Option RunTerminal → Option String → Option DriverRunTerminalStatus
last_terminal_status none run_id = none
last_terminal_status (some last) run_id =
    if matches run_id last.run_id then some last.status else none

acked_status :
    Option DriverRunTerminalState
    → ActiveRun
    → Option String
    → Option RunTerminal
    → Option DriverRunTerminalStatus
acked_status (some (acked r v)) active run_id last =
    if matches run_id active.run_id then some v.status else last_terminal_status last run_id
acked_status _ active run_id last = last_terminal_status last run_id

unfoldable pub acknowledged_run_terminal :
    Option String → DriverTerminalStateMachine → Option DriverRunTerminalStatus
unfolding acked_status
acknowledged_run_terminal run_id s = elim s.active_run [
  | none ↦ last_terminal_status s.last_run_terminal run_id
  | some active ↦ acked_status active.terminal active run_id s.last_run_terminal
]

pub data ReleaseReason : Type 0 where
  command_acked driver_failing : ReleaseReason

abbrev pub is_acked : Option DriverRunTerminalState → Bool
is_acked (some (acked r v)) = true
is_acked _ = false

abbrev is_command_acked : ReleaseReason → Bool
is_command_acked command_acked = true
is_command_acked driver_failing = false

abbrev remembered : ActiveRun → Option DriverRunTerminalState → Option RunTerminal
remembered active (some (acked r v)) = some (record { run_id = active.run_id; status = v.status })
remembered active _ = none

unfoldable pub release_run :
    DriverRunTicket
    → ReleaseReason
    → DriverTerminalStateMachine
    → Result TerminalError DriverTerminalStateMachine
unfolding require_run
release_run ticket reason s = do
  active ← require_run ticket s
  guard (not (is_command_acked reason && not (is_acked active.terminal))) terminal_not_acked
  ok (record s {
    last_run_terminal = remembered active active.terminal;
    last_owned_run_id = some ticket.run_id;
    active_run = none;
  })
