-- ===== src/Terminal/Decided.antt =====
-- What a run's ticket and its acknowledged terminal are worth later on
-- (src/core/driver-terminal-state.ts).
use mosoo_agent_driver.Base.{
  ℕ, ◌≤◌, ◌<◌, ◌≡◌, ◌↔◌, refl, Option, none, some, List, [], ◌∷◌, ok, err, arith, str_eq_self,
}
use mosoo_agent_driver.Terminal.{
  completed, DriverRunTicket, DriverRunTerminalIdentity, DriverEventReceipt, DriverRunTerminalState,
  acked, ActiveRun, DriverTerminalStateMachine, stale_ticket, new,
}
use mosoo_agent_driver.Terminal.Run.{
  ReleaseReason, require_run, begin_run, claim_cancellation, select_run_terminal, ack_run_terminal,
  abandon_run_terminal, release_run, remember_owned_run_id, acknowledged_run_terminal,
}
use mosoo_agent_driver.Terminal.Input.{
  DriverInputOutcome, resolved, input_cancelled, rejected, settled_resolved, settle_input,
}
use mosoo_agent_driver.Terminal.Instance.{
  request_shutdown, record_failure, mark_cleanup_completed, select_instance_terminal,
  ack_instance_terminal, abandon_instance_terminal,
}
use mosoo_agent_driver.Terminal.Calls.{
  Call, begins, claims, call, calls, IsSound, calls-IsSound, new-IsSound,
}

-- The run with number `n` is over: the active run, if there is one, has a later number.
abbrev IsOver : ℕ → Option ActiveRun → ℕ → Type 0
IsOver n none last = n ≤ last
IsOver n (some a) last = (n ≤ last) × (n < a.revision)

call-IsOver :
    (s : DriverTerminalStateMachine) (c : Call) (n : ℕ)
    → IsOver n s.active_run s.revision
    → IsOver n (call s c).active_run (call s c).revision
unfolding call begin_run claim_cancellation select_run_terminal ack_run_terminal
    abandon_run_terminal release_run remember_owned_run_id request_shutdown record_failure
    mark_cleanup_completed select_instance_terminal ack_instance_terminal abandon_instance_terminal
call-IsOver s (begins r) n h = ground arith
call-IsOver s (claims t r c) n h = ground arith
call-IsOver s _ n h = ground arith

calls-IsOver :
    (s : DriverTerminalStateMachine) (cs : List Call) (n : ℕ)
    → IsOver n s.active_run s.revision
    → IsOver n (calls s cs).active_run (calls s cs).revision
unfolding calls
calls-IsOver s [] n h = h
calls-IsOver s (c ∷ cs) n h = calls-IsOver (call s c) cs n (call-IsOver s c n h)

over_is_stale :
    (s : DriverTerminalStateMachine) (t : DriverRunTicket)
    → IsOver t.revision s.active_run s.revision
    → require_run t s ≡ err stale_ticket
unfolding require_run
over_is_stale s t h = ground arith

-- Once a run is released by its ticket, on a machine reached from a new one, the ticket is stale
-- after any further method calls: whatever runs begin later, no method takes it for one of them.
pub released_ticket_stale :
    (before later : List Call) (ticket : DriverRunTicket) (reason : ReleaseReason)
    (t : DriverTerminalStateMachine)
    → release_run ticket reason (calls new before) ≡ ok t
    → require_run ticket (calls t later) ≡ err stale_ticket
unfolding release_run
released_ticket_stale before later ticket reason t h = over_is_stale (calls t later) ticket (
    calls-IsOver t later ticket.revision
      (ground (arith, (calls-IsSound new before new-IsSound).run_sound)))

-- The run with number `n` still has the terminal `v`, if it is active.
abbrev HoldsTerminal : ℕ → Option DriverRunTerminalState → Option ActiveRun → ℕ → Type 0
HoldsTerminal n v none last = n ≤ last
HoldsTerminal n v (some a) last = (n ≤ last) × (a.revision ≡ n → a.terminal ≡ v)

call-HoldsTerminal :
    (s : DriverTerminalStateMachine) (c : Call) (n : ℕ) (r : DriverEventReceipt)
    (x : DriverRunTerminalIdentity)
    → HoldsTerminal n (some (acked r x)) s.active_run s.revision
    → HoldsTerminal n (some (acked r x)) (call s c).active_run (call s c).revision
unfolding call begin_run claim_cancellation select_run_terminal ack_run_terminal
    abandon_run_terminal release_run remember_owned_run_id request_shutdown record_failure
    mark_cleanup_completed select_instance_terminal ack_instance_terminal abandon_instance_terminal
call-HoldsTerminal s (begins r') n r x h = ground arith
call-HoldsTerminal s (claims t r' c) n r x h = ground arith
call-HoldsTerminal s _ n r x h = ground arith

calls-HoldsTerminal :
    (s : DriverTerminalStateMachine) (cs : List Call) (n : ℕ) (r : DriverEventReceipt)
    (x : DriverRunTerminalIdentity)
    → HoldsTerminal n (some (acked r x)) s.active_run s.revision
    → HoldsTerminal n (some (acked r x)) (calls s cs).active_run (calls s cs).revision
unfolding calls
calls-HoldsTerminal s [] n r x h = h
calls-HoldsTerminal s (c ∷ cs) n r x h =
    calls-HoldsTerminal (call s c) cs n r x (call-HoldsTerminal s c n r x h)

-- On a machine reached from a new one, the acknowledged terminal of the active run is final: after
-- any further method calls, as long as that run is the active one, it has the same receipt and the
-- same terminal.
pub acked_terminal_final :
    (before later : List Call) (a b : ActiveRun) (r : DriverEventReceipt)
    (x : DriverRunTerminalIdentity)
    → (calls new before).active_run ≡ some a
    → a.terminal ≡ some (acked r x)
    → (calls (calls new before) later).active_run ≡ some b
    → b.revision ≡ a.revision
    → b.terminal ≡ some (acked r x)
acked_terminal_final before later a b r x ha ht hb hn = ground (
  arith,
  calls-HoldsTerminal (calls new before) later a.revision r x
      (ground (arith, (calls-IsSound new before new-IsSound).run_sound)),
)

settled_on :
    (s : DriverTerminalStateMachine) (ticket : DriverRunTicket) (a : ActiveRun)
    (outcome : DriverInputOutcome)
    → IsSound s
    → require_run ticket s ≡ ok a
    → (settle_input ticket outcome s ≡ ok settled_resolved)
      ↔ ((outcome ≡ resolved) × (acknowledged_run_terminal (some a.run_id) s ≡ some completed))
unfolding settle_input acknowledged_run_terminal
settled_on s ticket a resolved v h = (
  λ e. (refl, ground (arith, v.run_sound, str_eq_self a.run_id)),
  λ e. ground (arith, v.run_sound, str_eq_self a.run_id, e.1),
)
settled_on s ticket a input_cancelled v h = (λ e. ground arith, λ e. cc)
settled_on s ticket a (rejected x) v h = (λ e. ground arith, λ e. cc)

-- On a machine reached from a new one and for the ticket of the active run, an input settles as
-- resolved exactly when it was resolved and the run's acknowledged terminal is `completed`.
pub settle_input_resolved :
    (before : List Call) (ticket : DriverRunTicket) (a : ActiveRun) (outcome : DriverInputOutcome)
    → require_run ticket (calls new before) ≡ ok a
    → (settle_input ticket outcome (calls new before) ≡ ok settled_resolved) ↔ (
        (outcome ≡ resolved)
        × (acknowledged_run_terminal (some a.run_id) (calls new before) ≡ some completed))
settle_input_resolved before ticket a outcome h =
    settled_on (calls new before) ticket a outcome (calls-IsSound new before new-IsSound) h
