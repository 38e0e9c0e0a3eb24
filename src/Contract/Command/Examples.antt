-- ===== src/Contract/Command/Examples.antt =====
-- Tests of `validateCommand` (src/contract/command-validation.ts): an answer to a question, the start
-- of a child run, and commands for a closed session.
use mosoo_agent_driver.Base.{
  ◌≡◌, refl, Bool, true, false, none, some, List, [], ◌∷◌, ok, Json, str_eq,
}
use mosoo_agent_driver.Contract.Command.{canonical_command}
use mosoo_agent_driver.Contract.Canonical.{canonical_snapshot}
use mosoo_agent_driver.Contract.Common.{
  compare_timestamps, compare_digits, assert_not_before, assert_not_after,
}
use mosoo_agent_driver.Contract.Content.{has_blob_ref, content_extension_names, ContentBlock}
use mosoo_agent_driver.Contract.Content as content
use mosoo_agent_driver.Contract.State
use mosoo_agent_driver.Contract.State.{Run}
use mosoo_agent_driver.Contract.Interaction as interactions
use mosoo_agent_driver.Contract.Interaction.{Interaction}
use mosoo_agent_driver.Contract.Samples.{at, session, a_run, snapshot, family}
use mosoo_agent_driver.Contract.Snapshot.{
  SessionSnapshot, snapshot_schema, state_content, interaction_content, interaction_schema,
}
use mosoo_agent_driver.Contract.Transition.{includes, distinct, assert_unique, entry}
use mosoo_agent_driver.Contract.Put
use mosoo_agent_driver.Contract.RunGraph.{chase, complete_all, assert_acyclic}
use mosoo_agent_driver.Contract.Checks.{
  assert_config, assert_session, distinct_keys, assert_identities, assert_content_capabilities,
  assert_one_active, assert_child, assert_run, is_closed,
}
use mosoo_agent_driver.Contract.Validate.{
  assert_interaction, assert_closed, validate_state, validate_session_snapshot,
}
use mosoo_agent_driver.Contract.Command.{
  Command, CommandBody, number_value, InteractionResolution, answered, input, run_start, run_cancel,
  interaction_resolve, command_schema, assert_config_value, assert_input_resolution,
  assert_resolution, command_content, assert_body, assert_command, validate_command,
}
use mosoo_agent_driver.Contract.Command.Admitted.{ForClosed, closed_session_commands}
use mosoo_agent_driver.Contract.Command.Resolve.{IsWritable, admitted_resolution_can_be_written}
use mosoo_agent_driver.Contract.Command.Start.{Fits, admitted_start-Fits}

-- a capability that says so
abbrev while_running : Json → Bool
while_running capability = str_eq capability "{\"whileRunning\":true}"

abbrev command : CommandBody → Command
command body = record {
  command_id = "k";
  session_id = "s";
  expected_revision = some 1;
  extensions = none;
  body = body;
}

-- as the parse returns it
abbrev parsed : CommandBody → Command
parsed body = record (command body) { command_id = "K"; session_id = "S" }

-- a question of an active run
abbrev question : Interaction
question = record {
  id = "q";
  run_id = "a";
  item_id = none;
  status = interactions.open_interaction;
  blocking = true;
  created_at = at "t";
  expires_at = record { text = "u"; second = 6; fraction = [] };
  ended_at = none;
  audience = State.participants;
  provenance = none;
  extensions = none;
  request = interactions.input_request (
      record {
        id = "x";
        prompt = "Go on?";
        required = true;
        question_type = interactions.confirm_question;
      }
      ∷ []);
  resolution = none;
}

abbrev running : List Run
running = a_run "a" none State.running ∷ []

abbrev asking : SessionSnapshot
asking = record (snapshot running) {
  session = record session {
    capabilities = ("run.child", "{}") ∷ ("interaction.input", "{}") ∷ [];
  };
  interactions = question ∷ [];
}

abbrev yes' : InteractionResolution
yes' = input (answered (("x", "true" ∷ []) ∷ []))

answer_admitted :
    validate_command while_running asking (command (interaction_resolve "q" yes')) (at "t")
    ≡ ok (parsed (interaction_resolve "Q" yes'))
unfolding validate_command canonical_snapshot canonical_command assert_command assert_body
    assert_resolution assert_input_resolution command_schema command_content
    validate_session_snapshot snapshot_schema compare_timestamps compare_digits assert_not_before
    includes validate_state assert_session assert_config assert_unique distinct assert_not_after
    assert_identities distinct_keys assert_content_capabilities state_content has_blob_ref
    content_extension_names assert_one_active assert_run assert_child entry assert_acyclic
    complete_all chase assert_closed assert_interaction Put.assert_interaction_content
    interaction_content interaction_schema
answer_admitted = refl

admitted_resolution_can_be_written_example :
    (validate_state (canonical_snapshot asking) ≡ ok tt)
    × ((i : Interaction) × IsWritable (canonical_snapshot asking) "Q" yes' (at "t") i)
admitted_resolution_can_be_written_example =
    admitted_resolution_can_be_written while_running asking (command (interaction_resolve "q" yes'))
      (parsed (interaction_resolve "Q" yes')) (at "t") "Q" yes' refl answer_admitted

-- a child of the active run
abbrev child : Run
child = a_run "B" (some "A") State.running

abbrev blocks : List ContentBlock
blocks = content.text "hi" ∷ []

start_admitted :
    validate_command while_running asking (command (run_start "b" blocks (some "a") none)) (at "t")
    ≡ ok (parsed (run_start "B" blocks (some "A") none))
unfolding validate_command canonical_snapshot canonical_command assert_command assert_body
    command_schema command_content validate_session_snapshot snapshot_schema compare_timestamps
    compare_digits assert_not_before includes validate_state assert_session assert_config
    assert_unique distinct assert_not_after assert_identities distinct_keys
    assert_content_capabilities state_content has_blob_ref content_extension_names assert_one_active
    assert_run assert_child entry assert_acyclic complete_all chase assert_closed assert_interaction
    Put.assert_interaction_content interaction_content interaction_schema
start_admitted = refl

admitted_start-Fits_example :
    (validate_state (canonical_snapshot asking) ≡ ok tt)
    × (is_closed (canonical_snapshot asking).session.status ≡ false)
    × Fits (canonical_snapshot asking) child
admitted_start-Fits_example =
    admitted_start-Fits while_running asking (command (run_start "b" blocks (some "a") none))
      (parsed (run_start "B" blocks (some "A") none)) (at "t") blocks child refl refl start_admitted

-- a closed session
abbrev shut : SessionSnapshot
shut = record (snapshot family) {
  session = record session { status = State.closed_session; closed_at = some (at "t") };
}

cancel_admitted :
    validate_command while_running shut (command (run_cancel "c" none)) (at "t")
    ≡ ok (parsed (run_cancel "C" none))
unfolding validate_command canonical_snapshot canonical_command assert_command assert_body
    command_schema command_content validate_session_snapshot snapshot_schema compare_timestamps
    compare_digits assert_not_before includes validate_state assert_session assert_config
    assert_unique distinct assert_not_after assert_identities distinct_keys
    assert_content_capabilities state_content has_blob_ref content_extension_names assert_one_active
    assert_run assert_child entry assert_acyclic complete_all chase assert_closed
cancel_admitted = refl

closed_session_commands_example : ForClosed (canonical_snapshot shut) (run_cancel "C" none)
closed_session_commands_example =
    closed_session_commands while_running shut (command (run_cancel "c" none))
      (parsed (run_cancel "C" none)) (at "t") refl cancel_admitted

-- a number in its range
in_range :
    assert_config_value
      (record {
        id = "n";
        label = "n";
        description = none;
        category = none;
        extensions = none;
        value = State.number 3 (some 1) (some 5);
      })
      (number_value 4)
    ≡ ok tt
unfolding assert_config_value
in_range = refl
