-- ===== src/RuntimeState/Runs.antt =====
-- The methods of src/core/driver-runtime-state.ts one at a time: which of them can throw, and that
-- a driver that shuts down is not revived.
use mosoo_agent_driver.Base.{
  ℕ, ◌≤◌, ◌<◌, ltb, [], ◌∷◌, ◌≡◌, true, Option, List, arith, Result, is_ok, ok, err,
}
use native.Mathlib.Nat.{le_refl}
use mosoo_agent_driver.RuntimeState.{
  DriverRuntimeStatus, running, stopping, stopped, failed, DriverRuntimeStateMachine,
  InvalidTransition, invalid_transition, is_shutting_down, enter, begin_run, end_run,
  begin_approval, end_approval,
}

-- the rank of a status on the way down; no rank falls
abbrev pub shutdown_rank : DriverRuntimeStatus → ℕ
shutdown_rank stopping = 1
shutdown_rank stopped = 2
shutdown_rank failed = 3
shutdown_rank _ = 0

-- What a method does to the state that it is called on: it throws, or its result satisfies `P`.
abbrev pub Ensures : {A : Type 0} → (A → Type 0) → Result InvalidTransition A → Type 0
Ensures P (ok a) = P a
Ensures P (err e) = Unit {0}

-- One call of a method.
pub data Call : Type 0 where
  enters : DriverRuntimeStatus → Call
  begins_run ends_run : ℕ → Call
  begins_approval : Call
  ends_approval : Option ℕ → Call

-- The state after a call; a call that throws leaves it.
abbrev pub after :
    DriverRuntimeStateMachine
    → Result InvalidTransition DriverRuntimeStateMachine
    → DriverRuntimeStateMachine
after s (ok t) = t
after s (err e) = s

abbrev pub after_approval :
    DriverRuntimeStateMachine
    → Result InvalidTransition (DriverRuntimeStateMachine × Option ℕ)
    → DriverRuntimeStateMachine
after_approval s (ok (t, g)) = t
after_approval s (err e) = s

unfoldable pub call : DriverRuntimeStateMachine → Call → DriverRuntimeStateMachine
unfolding enter begin_run end_run begin_approval end_approval
call s (enters next) = after s (enter next s)
call s (begins_run g) = after s (begin_run g s)
call s (ends_run g) = after s (end_run g s)
call s begins_approval = after_approval s (begin_approval s)
call s (ends_approval g) = after s (end_approval g s)

unfoldable pub calls : DriverRuntimeStateMachine → List Call → DriverRuntimeStateMachine
unfolding call
calls s [] = s
calls s (c ∷ cs) = calls (call s c) cs

enter-rank :
    (next : DriverRuntimeStatus) (s : DriverRuntimeStateMachine)
    → shutdown_rank s.status ≤ shutdown_rank (after s (enter next s)).status
unfolding enter
enter-rank next s = ground arith

begin_run-rank :
    (g : ℕ) (s : DriverRuntimeStateMachine)
    → shutdown_rank s.status ≤ shutdown_rank (after s (begin_run g s)).status
unfolding begin_run
begin_run-rank g s = ground arith

end_run-rank :
    (g : ℕ) (s : DriverRuntimeStateMachine)
    → shutdown_rank s.status ≤ shutdown_rank (after s (end_run g s)).status
unfolding end_run
end_run-rank g s = ground arith

begin_approval-rank :
    (s : DriverRuntimeStateMachine)
    → shutdown_rank s.status ≤ shutdown_rank (after_approval s (begin_approval s)).status
unfolding begin_approval
begin_approval-rank s = ground arith

end_approval-rank :
    (g : Option ℕ) (s : DriverRuntimeStateMachine)
    → shutdown_rank s.status ≤ shutdown_rank (after s (end_approval g s)).status
unfolding end_approval
end_approval-rank g s = ground arith

call-rank :
    (s : DriverRuntimeStateMachine) (c : Call)
    → shutdown_rank s.status ≤ shutdown_rank (call s c).status
unfolding call
call-rank s (enters next) = enter-rank next s
call-rank s (begins_run g) = begin_run-rank g s
call-rank s (ends_run g) = end_run-rank g s
call-rank s begins_approval = begin_approval-rank s
call-rank s (ends_approval g) = end_approval-rank g s

-- Over any sequence of method calls with any arguments, the status never moves back along
-- running-like statuses, `stopping`, `stopped`, `failed`: each call keeps the rank or raises it.
pub calls-rank :
    (s : DriverRuntimeStateMachine) (cs : List Call)
    → shutdown_rank s.status ≤ shutdown_rank (calls s cs).status
unfolding calls
calls-rank s [] = le_refl (shutdown_rank s.status)
calls-rank s (c ∷ cs) = omega (arith, call-rank s c, calls-rank (call s c) cs)

rank-is_shutting_down :
    (s : DriverRuntimeStateMachine) → is_shutting_down s ≡ ltb 0 (shutdown_rank s.status)
unfolding is_shutting_down
rank-is_shutting_down s = ground arith

-- Once `is_shutting_down` holds, it holds after any further method calls with any arguments,
-- and after them `begin_run` throws.
pub calls-is_shutting_down :
    (s : DriverRuntimeStateMachine) (cs : List Call) (g : ℕ)
    → is_shutting_down s ≡ true
    → (is_shutting_down (calls s cs) ≡ true)
      × (begin_run g (calls s cs) ≡ err (invalid_transition (calls s cs).status running))
calls-is_shutting_down s cs g h = (
  down (calls s cs) (ground (arith, rank-is_shutting_down s, calls-rank s cs)),
  refused (calls s cs) (ground (arith, rank-is_shutting_down s, calls-rank s cs)),
)
  where
    down : (t : DriverRuntimeStateMachine) → 0 < shutdown_rank t.status → is_shutting_down t ≡ true
    down t r = ground (arith, rank-is_shutting_down t)

    refused :
        (t : DriverRuntimeStateMachine)
        → 0 < shutdown_rank t.status
        → begin_run g t ≡ err (invalid_transition t.status running)
    refused t r = unfold begin_run in ground arith

-- A failed driver stays failed under any method calls.
pub calls-failed :
    (s : DriverRuntimeStateMachine) (cs : List Call)
    → s.status ≡ failed
    → (calls s cs).status ≡ failed
calls-failed s cs h = ground (arith, calls-rank s cs)

-- Ending a run, asking for an approval and answering one never throw, in any state.
pub settling_never_throws :
    (s : DriverRuntimeStateMachine) (g : ℕ) (ticket : Option ℕ)
    → (is_ok (end_run g s) ≡ true)
      × (is_ok (begin_approval s) ≡ true)
      × (is_ok (end_approval ticket s) ≡ true)
unfolding end_run begin_approval end_approval
settling_never_throws s g ticket = (ground arith, ground arith, ground arith)
