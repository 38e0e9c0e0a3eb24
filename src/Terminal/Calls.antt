-- ===== src/Terminal/Calls.antt =====
-- Sequences of method calls on the machine of src/core/driver-terminal-state.ts, with any arguments,
-- and what holds of the active run after each.
use mosoo_agent_driver.Base.{
  ℕ, ◌≡◌, ◌≢◌, String, Bool, true, false, Option, none, some, List, [], ◌∷◌, Result, ok, err,
  is_some, arith,
}
use mosoo_agent_driver.Terminal.{
  completed, DriverRunTicket, DriverRunTerminalIdentity, DriverEventReceipt, DriverRunTerminalState,
  DriverTurnCancellationSource, RunError, DriverInstanceTerminal, ActiveRun, RunTerminal,
  DriverTerminalStateMachine, TerminalError, new, terminal_value,
}
use mosoo_agent_driver.Terminal.Run.{
  ReleaseReason, begin_run, claim_cancellation, select_run_terminal, ack_run_terminal,
  abandon_run_terminal, release_run, remember_owned_run_id, is_completed,
}
use mosoo_agent_driver.Terminal.Instance.{
  request_shutdown, record_failure, mark_cleanup_completed, select_instance_terminal,
  ack_instance_terminal, abandon_instance_terminal,
}

pub data Call : Type 0 where
  begins : String → Call
  claims : DriverRunTicket → String → DriverTurnCancellationSource → Call
  selects : DriverRunTicket → DriverRunTerminalIdentity → Call
  acks : DriverRunTicket → DriverEventReceipt → Call
  abandons : DriverRunTicket → DriverRunTerminalIdentity → Call
  releases : DriverRunTicket → ReleaseReason → Call
  remembers : String → Call
  shuts_down cleans_up : Call
  fails : RunError → Option String → Call
  selects_instance acks_instance abandons_instance : DriverInstanceTerminal → Call

abbrev Machine : Type 0
Machine = DriverTerminalStateMachine

-- The machine after a call; a call that throws leaves it.
abbrev pub after : Machine → Result TerminalError Machine → Machine
after s (ok t) = t
after s (err e) = s

abbrev pub after_with : {A : Type 0} → Machine → Result TerminalError (Machine × A) → Machine
after_with s (ok (t, a)) = t
after_with s (err e) = s

unfoldable pub call : DriverTerminalStateMachine → Call → DriverTerminalStateMachine
call s (begins r) = after_with s (begin_run r s)
call s (claims t r c) = after_with s (claim_cancellation t r c s)
call s (selects t v) = after_with s (select_run_terminal t v s)
call s (acks t r) = after s (ack_run_terminal t r s)
call s (abandons t v) = after s (abandon_run_terminal t v s)
call s (releases t r) = after s (release_run t r s)
call s (remembers r) = after s (remember_owned_run_id r s)
call s shuts_down = request_shutdown s
call s cleans_up = after s (mark_cleanup_completed s)
call s (fails e r) = record_failure e r s
call s (selects_instance t) = after_with s (select_instance_terminal t s)
call s (acks_instance t) = after s (ack_instance_terminal t s)
call s (abandons_instance t) = after s (abandon_instance_terminal t s)

unfoldable pub calls : DriverTerminalStateMachine → List Call → DriverTerminalStateMachine
unfolding call
calls s [] = s
calls s (c ∷ cs) = calls (call s c) cs

abbrev ends_completed : Option DriverRunTerminalState → Bool
ends_completed none = false
ends_completed (some t) = is_completed (terminal_value t).status

-- The active run carries the machine's last number, no earlier terminal is remembered beside it,
-- its signal is aborted exactly if its cancellation is claimed, and then its terminal is not
-- `completed`.
abbrev RunIsSound : Option ActiveRun → ℕ → Option RunTerminal → Type 0
RunIsSound none n last = Unit
RunIsSound (some a) n last =
    (a.revision ≡ n)
    × (last ≡ none)
    × (is_some a.cancellation_claim ≡ is_some a.abort_reason)
    × (is_some a.cancellation_claim ≡ true → ends_completed a.terminal ≡ false)

pub record IsSound (s : Machine) : Type 0 where
  pub run_sound : RunIsSound s.active_run s.revision s.last_run_terminal

pub new-IsSound : IsSound new
unfolding new
new-IsSound = record { run_sound = tt }

begins-IsSound : (s : Machine) (r : String) → IsSound s → IsSound (call s (begins r))
unfolding call begin_run
begins-IsSound s r v = ground arith

claims-IsSound :
    (s : Machine) (t : DriverRunTicket) (r : String) (c : DriverTurnCancellationSource)
    → IsSound s
    → IsSound (call s (claims t r c))
unfolding call claim_cancellation
claims-IsSound s t r c v = ground arith

selects-IsSound :
    (s : Machine) (t : DriverRunTicket) (x : DriverRunTerminalIdentity)
    → IsSound s
    → IsSound (call s (selects t x))
unfolding call select_run_terminal
selects-IsSound s t x v = ground arith

acks-IsSound :
    (s : Machine) (t : DriverRunTicket) (r : DriverEventReceipt)
    → IsSound s
    → IsSound (call s (acks t r))
unfolding call ack_run_terminal
acks-IsSound s t r v = ground arith

abandons-IsSound :
    (s : Machine) (t : DriverRunTicket) (x : DriverRunTerminalIdentity)
    → IsSound s
    → IsSound (call s (abandons t x))
unfolding call abandon_run_terminal
abandons-IsSound s t x v = ground arith

releases-IsSound :
    (s : Machine) (t : DriverRunTicket) (r : ReleaseReason)
    → IsSound s
    → IsSound (call s (releases t r))
unfolding call release_run
releases-IsSound s t r v = ground arith

pub call-IsSound : (s : Machine) (c : Call) → IsSound s → IsSound (call s c)
unfolding call remember_owned_run_id request_shutdown record_failure mark_cleanup_completed
    select_instance_terminal ack_instance_terminal abandon_instance_terminal
call-IsSound s (begins r) v = begins-IsSound s r v
call-IsSound s (claims t r c) v = claims-IsSound s t r c v
call-IsSound s (selects t x) v = selects-IsSound s t x v
call-IsSound s (acks t r) v = acks-IsSound s t r v
call-IsSound s (abandons t x) v = abandons-IsSound s t x v
call-IsSound s (releases t r) v = releases-IsSound s t r v
call-IsSound s _ v = ground arith

pub calls-IsSound : (s : Machine) (cs : List Call) → IsSound s → IsSound (calls s cs)
unfolding calls
calls-IsSound s [] v = v
calls-IsSound s (c ∷ cs) v = calls-IsSound (call s c) cs (call-IsSound s c v)

-- After any method calls on a new machine, a run whose cancellation is claimed has its signal
-- aborted, and the terminal selected for it, acknowledged or not, is never `completed`.
pub claimed_never_completes :
    (cs : List Call) (a : ActiveRun) (reason : String)
    → (calls new cs).active_run ≡ some a
    → a.cancellation_claim ≡ some reason
    → (is_some a.abort_reason ≡ true)
      × ((t : DriverRunTerminalState) → a.terminal ≡ some t → (terminal_value t).status ≢ completed)
claimed_never_completes cs a reason h c =
    let v = calls-IsSound new cs new-IsSound in
    (ground (arith, v.run_sound), λ t e d. ground (arith, v.run_sound))
