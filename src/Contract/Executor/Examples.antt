-- ===== src/Contract/Executor/Examples.antt =====
-- Tests of `normalizeExecutorMutation` (src/contract/executor-mutation.ts): a run ends while a question
-- is asked.
use mosoo_agent_driver.Base.{arith, ℕ, ◌≡◌, refl, true, false, none, some, [], ◌∷◌, map, All, ok}
use mosoo_agent_driver.Contract.Canonical.{canonical_snapshot}
use mosoo_agent_driver.Contract.Common.{
  Timestamp, compare_timestamps, compare_digits, assert_not_before, assert_not_after, unsupported,
}
use mosoo_agent_driver.Contract.Common.Order.{
  timestamps_are_ordered, flip, compare_numbers, instant_in,
}
use mosoo_agent_driver.Contract.Common as common
use mosoo_agent_driver.Contract.Content.{has_blob_ref, content_extension_names}
use mosoo_agent_driver.Contract.State
use mosoo_agent_driver.Contract.State.{Run}
use mosoo_agent_driver.Contract.Interaction as interactions
use mosoo_agent_driver.Contract.Interaction.{Interaction}
use mosoo_agent_driver.Contract.Samples.{at, a_run, snapshot}
use mosoo_agent_driver.Contract.Snapshot
use mosoo_agent_driver.Contract.Snapshot.{
  SessionSnapshot, snapshot_schema, state_content, interaction_schema, item_schema,
}
use mosoo_agent_driver.Contract.Transition.{includes, distinct, assert_unique, entry}
use mosoo_agent_driver.Contract.RunGraph.{chase, complete_all, assert_acyclic}
use mosoo_agent_driver.Contract.Checks.{
  assert_config, assert_session, distinct_keys, assert_identities, assert_content_capabilities,
  assert_one_active, assert_child, assert_run,
}
use mosoo_agent_driver.Contract.Validate.{assert_closed, validate_state, validate_session_snapshot}
use mosoo_agent_driver.Contract.Executor.{
  ProposedMutation, proposed_schema, Dates, assert_operation, parse_executor_mutation,
  normalize_run, normalize_interaction, requested_ttl, deadline, normalize_operation,
  normalize_operations, normalize_executor_mutation, canonical_proposed,
}
use mosoo_agent_driver.Contract.Executor.Timed.{timed}
use mosoo_agent_driver.Contract.Executor.InTime.{InTime, normalized-InTime}

-- dates of a host that counts seconds
abbrev dates : Dates
dates = record {
  parse = λ (t : Timestamp). some t.second;
  print = λ n. some (record { text = "later"; second = n; fraction = [] });
}

abbrev moment : ℕ → Timestamp
moment n = record { text = "later"; second = n; fraction = [] }

abbrev busy : SessionSnapshot
busy = snapshot (a_run "a" none State.running ∷ [])

abbrev question : Timestamp → Timestamp → Interaction
question created_at expires_at = record {
  id = "q";
  run_id = "a";
  item_id = none;
  status = interactions.open_interaction;
  blocking = true;
  created_at = created_at;
  expires_at = expires_at;
  ended_at = none;
  audience = State.participants;
  provenance = none;
  extensions = none;
  request = interactions.tool_request "search" none;
  resolution = none;
}

abbrev ended : Timestamp → Timestamp → Run
ended started_at ended_at = record (a_run "a" none (State.run_completed ended_at State.success)) {
  started_at = started_at;
}

abbrev proposal : Run → Interaction → ProposedMutation
proposal run interaction = record {
  mutation_id = "m";
  session_id = "s";
  base_revision = 1;
  cause = Snapshot.system "test";
  operations = Snapshot.put_interaction interaction ∷ Snapshot.put_run run ∷ [];
  extensions = none;
}

-- the executor's clock is late, and it asks for more time than the limit of 60
abbrev proposed : ProposedMutation
proposed = proposal (ended (moment 1) (moment 2)) (question (moment 1) (moment 99))

abbrev normalized : ProposedMutation
normalized =
    record (proposal (record (ended (at "t") (moment 7)) { id = "A" })
      (record (question (moment 7) (moment 67)) { id = "Q"; run_id = "A" })) {
        mutation_id = "M";
        session_id = "S";
      }

proposal_accepted : normalize_executor_mutation dates busy proposed (moment 7) 60 ≡ ok normalized
unfolding normalize_executor_mutation canonical_snapshot canonical_proposed parse_executor_mutation
    proposed_schema assert_operation normalize_operations normalize_operation normalize_run
    normalize_interaction deadline requested_ttl validate_session_snapshot snapshot_schema
    interaction_schema compare_timestamps compare_digits assert_not_before includes validate_state
    assert_session assert_config assert_unique distinct assert_not_after assert_identities
    distinct_keys assert_content_capabilities state_content has_blob_ref content_extension_names
    assert_one_active assert_run assert_child entry assert_acyclic complete_all chase assert_closed
proposal_accepted = refl

normalized-InTime_example :
    (validate_state (canonical_snapshot busy) ≡ ok tt)
    × ((normalized.session_id ≡ (canonical_snapshot busy).session.id)
        × (normalized.base_revision ≡ (canonical_snapshot busy).revision))
    × (normalized ≡ record (canonical_proposed proposed) { operations = normalized.operations })
    × (map (timed (moment 7)) normalized.operations
        ≡ map (timed (moment 7)) (canonical_proposed proposed).operations)
    × All (InTime dates 60 (canonical_snapshot busy) (moment 7)) normalized.operations
normalized-InTime_example =
    normalized-InTime dates busy proposed normalized (moment 7) 60 proposal_accepted

-- three tenths of a second, in one digit and in two
abbrev short : Timestamp
short = record { text = "0.3"; second = 5; fraction = 3 ∷ [] }

abbrev long : Timestamp
long = record { text = "0.30"; second = 5; fraction = 3 ∷ 0 ∷ [] }

timestamps_are_ordered_example :
    (compare_timestamps short long ≡ compare_numbers (instant_in 2 short) (instant_in 2 long))
    × (compare_timestamps short long ≡ flip (compare_timestamps long short))
    × (common.is_earlier (compare_timestamps short long) ≡ false
        → common.is_earlier (compare_timestamps long (moment 7)) ≡ false
        → common.is_earlier (compare_timestamps short (moment 7)) ≡ false)
timestamps_are_ordered_example =
    timestamps_are_ordered 2 short long (moment 7) (omega arith, (omega arith, tt))
      (omega arith, (omega arith, (omega arith, tt)))
