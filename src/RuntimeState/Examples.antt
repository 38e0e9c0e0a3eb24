-- ===== src/RuntimeState/Examples.antt =====
-- The theorems about the runtime status at concrete drivers, and runs of the methods.
use mosoo_agent_driver.Base.{
  suc, ◌<◌, ◌≤◌, ◌≡◌, ◌≢◌, refl, true, some, none, List, [], ◌∷◌, ok, err, is_ok,
}
use mosoo_agent_driver.Base.Int.{pos}
use mosoo_agent_driver.RuntimeState.{
  created, starting, ready, running, needs_approval, stopping, stopped, failed,
  DriverRuntimeStateMachine, invalid_transition, is_shutting_down, enter, begin_run, end_run,
  begin_approval, end_approval, new,
}
use mosoo_agent_driver.RuntimeState.Runs.{
  Call, enters, begins_run, ends_run, begins_approval, ends_approval, call, calls, shutdown_rank,
  calls-rank, calls-is_shutting_down, calls-failed, settling_never_throws,
}
use mosoo_agent_driver.RuntimeState.Reach.{
  Driver, boot, Reach, here, next, boots, lifecycle, to_starting, starts, asks, live,
  approvals_counted, ready_runs,
}

abbrev session : List Call
session =
    enters starting
    ∷ enters ready
    ∷ begins_run 1
    ∷ begins_approval
    ∷ begins_approval
    ∷ ends_approval (some 1)
    ∷ enters created
    ∷ []

-- two approvals asked, one answered, and an edge that the table lacks
session_runs :
    calls (new created) session
    ≡ record { active_approvals = pos 1; active_run_generation = some 1; status = needs_approval }
unfolding calls call new
session_runs = refl

abbrev stopped_session : List Call
stopped_session = enters stopping ∷ ends_run 1 ∷ begins_run 2 ∷ enters stopped ∷ []

calls-rank_example :
    shutdown_rank created ≤ shutdown_rank (calls (new created) stopped_session).status
unfolding new
calls-rank_example = calls-rank (new created) stopped_session

abbrev halting : DriverRuntimeStateMachine
halting = record { active_approvals = pos 1; active_run_generation = some 1; status = stopping }

calls-is_shutting_down_example :
    (is_shutting_down (calls halting stopped_session) ≡ true)
    × (begin_run 2 (calls halting stopped_session)
        ≡ err (invalid_transition (calls halting stopped_session).status running))
unfolding is_shutting_down
calls-is_shutting_down_example = calls-is_shutting_down halting stopped_session 2 refl

calls-failed_example : (calls (record halting { status = failed }) stopped_session).status ≡ failed
calls-failed_example = calls-failed (record halting { status = failed }) stopped_session refl

settling_never_throws_example :
    (is_ok (end_run 1 halting) ≡ true)
    × (is_ok (begin_approval halting) ≡ true)
    × (is_ok (end_approval (some 1) halting) ≡ true)
settling_never_throws_example = settling_never_throws halting 1 (some 1)

abbrev up : Driver
up = record boot {
  machine = record { active_approvals = pos 0; active_run_generation = none; status = ready };
}

up_reached : Reach boot up
unfolding enter new
up_reached = next (next here (lifecycle boot starting _ to_starting refl)) (boots _ _ refl refl)

abbrev waiting : Driver
waiting = record {
  machine = record {
    active_approvals = pos 1;
    active_run_generation = some 1;
    status = needs_approval;
  };
  outstanding = 1 ∷ [];
  last_run = 1;
}

waiting_reached : Reach boot waiting
unfolding begin_run begin_approval
waiting_reached = next (next up_reached (starts up _ refl refl)) (asks _ 1 _ refl)

approvals_counted_example :
    (waiting.machine.active_approvals
      ≡ pos (live waiting.machine.active_run_generation waiting.outstanding))
    × (waiting.machine.status ≡ needs_approval
        → 0 < live waiting.machine.active_run_generation waiting.outstanding)
    × (waiting.machine.status ≡ running
        → live waiting.machine.active_run_generation waiting.outstanding ≡ 0)
approvals_counted_example = approvals_counted waiting_reached

ready_runs_example :
    (up.machine.status ≡ running → up.machine.active_run_generation ≢ none)
    × (up.machine.status ≡ needs_approval → up.machine.active_run_generation ≢ none)
    × (up.machine.status ≡ ready
        → (up.machine.active_run_generation ≡ none)
          × (begin_run (suc up.last_run) up.machine
              ≡ ok (record {
                active_approvals = pos 0;
                active_run_generation = some (suc up.last_run);
                status = running;
              })))
ready_runs_example = ready_runs up_reached
