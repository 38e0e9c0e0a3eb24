-- ===== src/Contract/Executor/Timed.antt =====
-- What a change of times keeps of an operation (`normalizeExecutorMutation` of
-- src/contract/executor-mutation.ts).
use mosoo_agent_driver.Base.{◌≡◌, refl, ap, Option, none}
use mosoo_agent_driver.Contract.Common.{Timestamp}
use mosoo_agent_driver.Contract.Snapshot.{
  AuthorityOperation, put_session, put_run, put_item, put_interaction, remove_run,
}
use mosoo_agent_driver.Contract.State.{
  Run, RunOutcome, running, run_completed, run_failed, run_cancelled,
}
use mosoo_agent_driver.Contract.Executor.{with_end, normalize_run}

-- an outcome that is reached at the time
abbrev pub outcome_at : Timestamp → RunOutcome → RunOutcome
outcome_at t running = running
outcome_at t (run_completed e reason) = run_completed t reason
outcome_at t (run_failed e error) = run_failed t error
outcome_at t (run_cancelled e reason) = run_cancelled t reason

-- An operation with each of its times replaced by the one given, and the end of an item or an
-- interaction left out: all that a change of its times keeps.
abbrev pub timed : Timestamp → AuthorityOperation → AuthorityOperation
timed t (put_session x) = put_session x
timed t (put_run r) = put_run (record r { started_at = t; outcome = outcome_at t r.outcome })
timed t (put_item i) = put_item (record i { created_at = t; updated_at = t; ended_at = none })
timed t (put_interaction i) =
    put_interaction (record i { created_at = t; expires_at = t; ended_at = none })
timed t (remove_run id reason) = remove_run id reason

outcome_at-with_end :
    (t e : Timestamp) (o : RunOutcome) → outcome_at t (with_end e o) ≡ outcome_at t o
outcome_at-with_end t e running = refl
outcome_at-with_end t e (run_completed x reason) = refl
outcome_at-with_end t e (run_failed x error) = refl
outcome_at-with_end t e (run_cancelled x reason) = refl

pub normalize_run-timed :
    (t accepted : Timestamp) (o : Option Run) (r : Run)
    → timed t (put_run (normalize_run o accepted r)) ≡ timed t (put_run r)
unfolding normalize_run
normalize_run-timed t accepted o r =
    ap (λ x. put_run (record r { started_at = t; outcome = x }))
      (outcome_at-with_end t accepted r.outcome)
