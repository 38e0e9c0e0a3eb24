-- ===== src/RuntimeState.antt =====
-- The driver's runtime status (src/core/driver-runtime-state.ts): the transition table, and the
-- state machine that runs and approvals move. A method that throws returns `err` and its caller
-- keeps the state, as every method throws before it writes.
pub mod Runs
pub mod Reach
mod Examples
use mosoo_agent_driver.Base.{
  ℕ, String, Bool, true, false, ◌||◌, Option, none, some, List, [], ◌∷◌, ◌==◌, any, if◌then◌else◌,
  Result, ok, err, ◌>>=◌,
}
use mosoo_agent_driver.Base.Int.{ℤ, pos, increment, decrement, is_zero}

pub data DriverRuntimeStatus : Type 0 where
  created starting ready running needs_approval stopping stopped failed : DriverRuntimeStatus

-- `left === right` of two statuses
abbrev pub same_status : DriverRuntimeStatus → DriverRuntimeStatus → Bool
same_status created created = true
same_status starting starting = true
same_status ready ready = true
same_status running running = true
same_status needs_approval needs_approval = true
same_status stopping stopping = true
same_status stopped stopped = true
same_status failed failed = true
same_status _ _ = false

unfoldable pub driver_runtime_transitions : DriverRuntimeStatus → List DriverRuntimeStatus
driver_runtime_transitions created = starting ∷ failed ∷ stopping ∷ []
driver_runtime_transitions failed = []
driver_runtime_transitions needs_approval = running ∷ ready ∷ failed ∷ stopping ∷ []
driver_runtime_transitions ready = running ∷ failed ∷ stopping ∷ []
driver_runtime_transitions running = needs_approval ∷ ready ∷ failed ∷ stopping ∷ []
driver_runtime_transitions starting = ready ∷ failed ∷ stopping ∷ []
driver_runtime_transitions stopped = failed ∷ []
driver_runtime_transitions stopping = failed ∷ stopped ∷ []

pub record DriverRuntimeStateMachine : Type 0 where
  pub active_approvals : ℤ
  pub active_run_generation : Option ℕ
  pub status : DriverRuntimeStatus

-- `Invalid driver runtime state transition: from -> to.`
pub data InvalidTransition : Type 0 where
  invalid_transition : DriverRuntimeStatus → DriverRuntimeStatus → InvalidTransition

unfoldable pub new : DriverRuntimeStatus → DriverRuntimeStateMachine
new initial = record { active_approvals = pos 0; active_run_generation = none; status = initial }

unfoldable pub is_shutting_down : DriverRuntimeStateMachine → Bool
is_shutting_down s =
    same_status s.status failed || same_status s.status stopped || same_status s.status stopping

unfoldable pub enter :
    DriverRuntimeStatus
    → DriverRuntimeStateMachine
    → Result InvalidTransition DriverRuntimeStateMachine
unfolding driver_runtime_transitions
enter next s =
    if same_status next s.status
    then ok s
    else if any (same_status next) (driver_runtime_transitions s.status)
    then ok (record s { status = next })
    else err (invalid_transition s.status next)

unfoldable pub begin_run :
    ℕ → DriverRuntimeStateMachine → Result InvalidTransition DriverRuntimeStateMachine
unfolding enter
begin_run generation s = do
  t ← enter running s
  ok (record t { active_run_generation = some generation; active_approvals = pos 0 })

-- `this.#activeRunGeneration === generation`
unfoldable pub owns_run : ℕ → DriverRuntimeStateMachine → Bool
owns_run generation s = elim s.active_run_generation [
  | none ↦ false
  | some current ↦ current == generation
]

unfoldable pub end_run :
    ℕ → DriverRuntimeStateMachine → Result InvalidTransition DriverRuntimeStateMachine
unfolding enter owns_run
end_run generation s =
    if owns_run generation s
    then (let t = record s { active_run_generation = none; active_approvals = pos 0 } in
        if same_status t.status running || same_status t.status needs_approval
        then enter ready t
        else ok t)
    else ok s

-- The generation that a later `end_approval` has to show, or `none` if no run takes approvals.
unfoldable pub begin_approval :
    DriverRuntimeStateMachine → Result InvalidTransition (DriverRuntimeStateMachine × Option ℕ)
unfolding enter
begin_approval s = elim s.active_run_generation [
  | none ↦ ok (s, none)
  | some generation ↦
      if same_status s.status running || same_status s.status needs_approval
      then (do
        t ← enter needs_approval (record s { active_approvals = increment s.active_approvals })
        ok (t, some generation))
      else ok (s, none)
]

unfoldable pub end_approval :
    Option ℕ → DriverRuntimeStateMachine → Result InvalidTransition DriverRuntimeStateMachine
unfolding enter owns_run
end_approval none s = ok s
end_approval (some generation) s =
    if owns_run generation s
    then (let t = record s { active_approvals = decrement s.active_approvals } in
        if is_zero t.active_approvals
        then (if same_status t.status needs_approval then enter running t else ok t)
        else ok t)
    else ok s
