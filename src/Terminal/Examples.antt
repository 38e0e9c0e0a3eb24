-- ===== src/Terminal/Examples.antt =====
-- The theorems about run and instance terminals at concrete machines.
use mosoo_agent_driver.Base.{
  ◌≡◌, ◌≢◌, ◌↔◌, refl, true, false, none, some, List, [], ◌∷◌, ok, err, is_ok, is_some,
}
use mosoo_agent_driver.Terminal.{
  completed, DriverRunTicket, DriverRunTerminalIdentity, DriverEventReceipt, DriverRunTerminalState,
  acked, turn_cancel, RunError, instance_completed, instance_acked, ShutdownState, Failure,
  ActiveRun, DriverTerminalStateMachine, stale_ticket, terminal_value, new,
}
use mosoo_agent_driver.Terminal.Run.{
  command_acked, require_run, begin_run, claim_cancellation, select_run_terminal, ack_run_terminal,
  release_run, acknowledged_run_terminal,
}
use mosoo_agent_driver.Terminal.Input.{resolved, settled_resolved, settle_input}
use mosoo_agent_driver.Terminal.Instance.{instance_run_id, terminal_run_id, shutdown_snapshot}
use mosoo_agent_driver.Terminal.Calls.{
  Call, begins, claims, selects, acks, cleans_up, fails, calls, claimed_never_completes,
}
use mosoo_agent_driver.Terminal.Decided.{
  released_ticket_stale, acked_terminal_final, settle_input_resolved,
}
use mosoo_agent_driver.Terminal.Shutdown.{acked_instance_final, first_failure_stays}

abbrev ticket : DriverRunTicket
ticket = record { revision = 1; run_id = "run-a"; signal = 0 }

abbrev ending : DriverRunTerminalIdentity
ending = record { event = "{}"; run_id = "run-a"; source_event_id = "event-1"; status = completed }

abbrev receipt : DriverEventReceipt
receipt = record { event_id = "event-1"; seq = 7; kind = "run.completed" }

abbrev aborting : List Call
aborting = begins "run-a" ∷ claims ticket "stop" turn_cancel ∷ selects ticket ending ∷ []

abbrev aborted_run : ActiveRun
aborted_run = record {
  signal = 0;
  abort_reason = some (record { message = "stop"; resume_allowed = true });
  cancellation_claim = some "stop";
  revision = 1;
  run_id = "run-a";
  terminal = none;
}

claimed_never_completes_example :
    (is_some aborted_run.abort_reason ≡ true)
    × ((t : DriverRunTerminalState)
        → aborted_run.terminal ≡ some t
        → (terminal_value t).status ≢ completed)
unfolding calls begin_run claim_cancellation select_run_terminal new
claimed_never_completes_example = claimed_never_completes aborting aborted_run "stop" refl refl

abbrev finishing : List Call
finishing = begins "run-a" ∷ selects ticket ending ∷ acks ticket receipt ∷ []

abbrev finished_run : ActiveRun
finished_run = record {
  signal = 0;
  abort_reason = none;
  cancellation_claim = none;
  revision = 1;
  run_id = "run-a";
  terminal = some (acked receipt ending);
}

released_ticket_stale_example :
    require_run ticket (
      calls
        (record {
          active_run = none;
          instance_terminal = new.instance_terminal;
          last_owned_run_id = some "run-a";
          last_run_terminal = some (record { run_id = "run-a"; status = completed });
          revision = 1;
          shutdown_state = none;
          controllers = 1;
        })
        (begins "run-a" ∷ []))
    ≡ err stale_ticket
unfolding calls begin_run select_run_terminal ack_run_terminal release_run new
released_ticket_stale_example =
    released_ticket_stale finishing (begins "run-a" ∷ []) ticket command_acked _ refl

acked_terminal_final_example : finished_run.terminal ≡ some (acked receipt ending)
unfolding calls begin_run claim_cancellation select_run_terminal ack_run_terminal new
acked_terminal_final_example =
    acked_terminal_final finishing (claims ticket "late" turn_cancel ∷ []) finished_run finished_run
      receipt ending refl refl refl refl

settle_input_resolved_example :
    (settle_input ticket resolved (calls new finishing) ≡ ok settled_resolved) ↔ (
      (resolved ≡ resolved)
      × (acknowledged_run_terminal (some "run-a") (calls new finishing) ≡ some completed))
unfolding calls begin_run claim_cancellation select_run_terminal ack_run_terminal require_run new
settle_input_resolved_example = settle_input_resolved finishing ticket finished_run resolved refl

abbrev instance_over : DriverTerminalStateMachine
unfolding new
instance_over = record new { instance_terminal = instance_acked (instance_completed "run-a") }

acked_instance_final_example :
    ((calls instance_over aborting).instance_terminal ≡ instance_acked (instance_completed "run-a"))
    × (terminal_run_id none (calls instance_over aborting)
        ≡ some (instance_run_id (instance_completed "run-a")))
    × (is_ok (begin_run "run-b" (calls instance_over aborting)) ≡ false)
unfolding new
acked_instance_final_example =
    acked_instance_final instance_over aborting (instance_completed "run-a") none "run-b" refl

abbrev crash : RunError
crash = record { code = "driver.failed"; details = "{}"; message = "lost"; retryable = false }

abbrev crashed : ShutdownState
crashed = record {
  cleanup_completed = false;
  failure = some (record { error = crash; run_id = some "run-a" });
}

first_failure_stays_example :
    (now : ShutdownState) × (shutdown_snapshot (
        calls
          (record new { shutdown_state = some crashed })
          (fails (record crash { code = "late" }) none ∷ cleans_up ∷ []))
      ≡ some now)
    × ((f : Failure) → crashed.failure ≡ some f → now.failure ≡ some f)
    × (crashed.cleanup_completed ≡ true → now.cleanup_completed ≡ true)
unfolding shutdown_snapshot
first_failure_stays_example =
    first_failure_stays (record new { shutdown_state = some crashed })
      (fails (record crash { code = "late" }) none ∷ cleans_up ∷ []) crashed refl
