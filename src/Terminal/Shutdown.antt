-- ===== src/Terminal/Shutdown.antt =====
-- What is final about the shutdown record and the instance terminal
-- (src/core/driver-terminal-state.ts).
use mosoo_agent_driver.Base.{
  ◌≡◌, refl, String, true, false, Option, none, some, List, [], ◌∷◌, arith, is_ok,
}
use mosoo_agent_driver.Terminal.{
  DriverInstanceTerminal, instance_acked, Failure, ShutdownState, DriverTerminalStateMachine, new,
}
use mosoo_agent_driver.Terminal.Run.{
  begin_run, claim_cancellation, select_run_terminal, ack_run_terminal, abandon_run_terminal,
  release_run, remember_owned_run_id,
}
use mosoo_agent_driver.Terminal.Instance.{
  request_shutdown, record_failure, mark_cleanup_completed, select_instance_terminal,
  ack_instance_terminal, abandon_instance_terminal, instance_run_id, terminal_run_id,
  shutdown_snapshot,
}
use mosoo_agent_driver.Terminal.Calls.{Call, begins, claims, call, calls}

abbrev Machine : Type 0
Machine = DriverTerminalStateMachine

call-instance_acked :
    (s : Machine) (c : Call) (t : DriverInstanceTerminal)
    → s.instance_terminal ≡ instance_acked t
    → (call s c).instance_terminal ≡ instance_acked t
unfolding call begin_run claim_cancellation select_run_terminal ack_run_terminal
    abandon_run_terminal release_run remember_owned_run_id request_shutdown record_failure
    mark_cleanup_completed select_instance_terminal ack_instance_terminal abandon_instance_terminal
call-instance_acked s (begins r) t h = ground arith
call-instance_acked s (claims u r x) t h = ground arith
call-instance_acked s _ t h = ground arith

calls-instance_acked :
    (s : Machine) (cs : List Call) (t : DriverInstanceTerminal)
    → s.instance_terminal ≡ instance_acked t
    → (calls s cs).instance_terminal ≡ instance_acked t
unfolding calls
calls-instance_acked s [] t h = h
calls-instance_acked s (c ∷ cs) t h =
    calls-instance_acked (call s c) cs t (call-instance_acked s c t h)

-- An acknowledged instance terminal is final: after any further method calls it stands, its run is
-- the one that `terminal_run_id` names whatever the fallback, and no run can begin.
pub acked_instance_final :
    (s : Machine) (cs : List Call) (t : DriverInstanceTerminal) (fallback : Option String)
    (run_id : String)
    → s.instance_terminal ≡ instance_acked t
    → ((calls s cs).instance_terminal ≡ instance_acked t)
      × (terminal_run_id fallback (calls s cs) ≡ some (instance_run_id t))
      × (is_ok (begin_run run_id (calls s cs)) ≡ false)
acked_instance_final s cs t fallback run_id h =
    let kept = calls-instance_acked s cs t h in
    (kept, unfold terminal_run_id in ground arith, unfold begin_run in ground arith)

-- The first failure stays, and a finished cleanup stays finished.
abbrev Extends : ShutdownState → Option ShutdownState → Type 0
Extends old none = ⊥
Extends old (some new) =
    ((f : Failure) → old.failure ≡ some f → new.failure ≡ some f)
    × (old.cleanup_completed ≡ true → new.cleanup_completed ≡ true)

call-Extends :
    (s : Machine) (c : Call) (old : ShutdownState)
    → Extends old s.shutdown_state
    → Extends old (call s c).shutdown_state
unfolding call begin_run claim_cancellation select_run_terminal ack_run_terminal
    abandon_run_terminal release_run remember_owned_run_id request_shutdown record_failure
    mark_cleanup_completed select_instance_terminal ack_instance_terminal abandon_instance_terminal
call-Extends s (begins r) old h = grind arith
call-Extends s (claims u r x) old h = grind arith
call-Extends s _ old h = grind arith

calls-Extends :
    (s : Machine) (cs : List Call) (old : ShutdownState)
    → Extends old s.shutdown_state
    → Extends old (calls s cs).shutdown_state
unfolding calls
calls-Extends s [] old h = h
calls-Extends s (c ∷ cs) old h = calls-Extends (call s c) cs old (call-Extends s c old h)

extended :
    (old : ShutdownState) (o : Option ShutdownState)
    → Extends old o
    → (new : ShutdownState) × (o ≡ some new)
      × ((f : Failure) → old.failure ≡ some f → new.failure ≡ some f)
      × (old.cleanup_completed ≡ true → new.cleanup_completed ≡ true)
extended old none h = absurd h
extended old (some sh) h = (sh, refl, h.0, h.1)

-- A shutdown that has begun, with or without a failure, is never forgotten: whatever methods are called
-- there is a later snapshot, a failure that it had recorded is the one that the later snapshot shows,
-- and a cleanup that was completed stays completed.
pub first_failure_stays :
    (s : DriverTerminalStateMachine) (cs : List Call) (old : ShutdownState)
    → shutdown_snapshot s ≡ some old
    → (new : ShutdownState) × (shutdown_snapshot (calls s cs) ≡ some new)
      × ((f : Failure) → old.failure ≡ some f → new.failure ≡ some f)
      × (old.cleanup_completed ≡ true → new.cleanup_completed ≡ true)
unfolding shutdown_snapshot
first_failure_stays s cs old h =
    extended old (calls s cs).shutdown_state (calls-Extends s cs old (rw h ((λ g k. k), (λ c. c))))
