-- ===== src/Contract/Command.antt =====
-- Commands (src/contract/command.ts) and which of them a snapshot admits (`validateCommand` of
-- src/contract/command-validation.ts, without admission limits).
pub mod Admitted
pub mod Resolve
pub mod Start
mod Examples
use mosoo_agent_driver.Base.{
  ℕ, String, Bool, true, false, not, ◌&&◌, ◌||◌, Option, none, some, List, [], ◌∷◌, map, any, every,
  find, leb, ◌==◌, str_eq, if◌then◌else◌, is_some, same, Json, Result, ok, err, guard, require,
  ◌>>=◌, ◌>>◌, for_each,
}
use mosoo_agent_driver.Contract.Common.Ids.{canonical_id}
use mosoo_agent_driver.Contract.Canonical.{canonical_content, canonical_tool_resolution}
use mathlib.Core.Option.{map as option_map}
use mosoo_agent_driver.Contract.Common.{
  ContractError, session_mismatch, stale_revision, invalid_transition, invalid_reference,
  unsupported, duplicate_entity, schema_error, Timestamp, compare_timestamps, is_earlier, Number,
}
use mosoo_agent_driver.Contract.Content.{ContentBlock, has_blob_ref}
use mosoo_agent_driver.Contract.State.{
  Session, SessionStatus, ConfigOption, number, select, boolean, string, SelectChoice, Run,
  run_status, is_active, Item,
}
use mosoo_agent_driver.Contract.Interaction.{
  Interaction, InteractionRequest, permission_request, input_request, tool_request,
  extension_request, PermissionResolution, selected, permission_cancelled, ToolResolution,
  tool_completed, InputQuestion, QuestionType, multi_select, single_select, confirm_question,
  QuestionChoice, PermissionOption, is_open,
}
use mosoo_agent_driver.Contract.Snapshot.{SessionSnapshot}
use mosoo_agent_driver.Contract.Transition.{includes, distinct, entry}
use mosoo_agent_driver.Contract.Put.{is_item, is_interaction, option_ids, choice_ids, question_ids}
use mosoo_agent_driver.Contract.RunGraph.{run_by_id}
use mosoo_agent_driver.Contract.Checks.{
  advertises, is_closed, is_active_top_level, run_ids, assert_content_capabilities,
}
use mosoo_agent_driver.Contract.Validate.{validate_session_snapshot}

-- the value that a configuration change writes
pub data ChangeValue : Type 0 where
  boolean_value : Bool → ChangeValue
  text_value : String → ChangeValue
  number_value : Number → ChangeValue
  other_value : Json → ChangeValue

pub record Change : Type 0 where
  pub config_id : String
  pub value : ChangeValue

-- the answers by the identity of their question
pub data InputAnswer : Type 0 where
  answered : List (String × List String) → InputAnswer
  cancelled : InputAnswer

pub data InteractionResolution : Type 0 where
  permission : PermissionResolution → InteractionResolution
  input : InputAnswer → InteractionResolution
  tool : ToolResolution → InteractionResolution
  extension : String → Json → InteractionResolution

pub data CommandBody : Type 0 where
  -- the run, its input, its parent and the run that it retries
  run_start : String → List ContentBlock → Option String → Option String → CommandBody
  run_steer : String → List ContentBlock → CommandBody
  run_cancel : String → Option String → CommandBody
  session_close : Option String → CommandBody
  session_configure : List Change → CommandBody
  interaction_resolve : String → InteractionResolution → CommandBody

pub record Command : Type 0 where
  pub command_id : String
  pub session_id : String
  pub expected_revision : Option ℕ
  pub extensions : Option Json
  pub body : CommandBody

abbrev pub is_nonempty {ℓ} : {A : Type ℓ} → List A → Bool
is_nonempty [] = false
is_nonempty (x ∷ xs) = true

abbrev pub answer_ids : List (String × List String) → List String
answer_ids answers = map (λ (a : String × List String). a.0) answers

-- the keys of an object are distinct
abbrev pub resolution_schema : InteractionResolution → Bool
resolution_schema (input (answered answers)) =
    distinct (answer_ids answers) && every (λ (a : String × List String). is_nonempty a.1) answers
resolution_schema _ = true

abbrev pub body_schema : CommandBody → Bool
body_schema (run_start id blocks parent retry) = is_nonempty blocks
body_schema (run_steer id blocks) = is_nonempty blocks
body_schema (session_configure changes) =
    is_nonempty changes && distinct (map (λ (c : Change). c.config_id) changes)
body_schema (interaction_resolve id resolution) = resolution_schema resolution
body_schema _ = true

unfoldable pub command_schema : Command → Bool
command_schema c = body_schema c.body

abbrev pub canonical_command_body : CommandBody → CommandBody
canonical_command_body (run_start id blocks parent retry) =
    run_start (canonical_id id) (canonical_content blocks) (option_map canonical_id parent)
      (option_map canonical_id retry)
canonical_command_body (run_steer id blocks) =
    run_steer (canonical_id id) (canonical_content blocks)
canonical_command_body (run_cancel id reason) = run_cancel (canonical_id id) reason
canonical_command_body (interaction_resolve id (tool resolution)) =
    interaction_resolve (canonical_id id) (tool (canonical_tool_resolution resolution))
canonical_command_body (interaction_resolve id resolution) =
    interaction_resolve (canonical_id id) resolution
canonical_command_body body = body

-- what `commandSchema.parse` returns of a command that it admits
unfoldable pub canonical_command : Command → Command
canonical_command c = record c {
  command_id = canonical_id c.command_id;
  session_id = canonical_id c.session_id;
  body = canonical_command_body c.body;
}

abbrev Check : Type 0
Check = Result ContractError (Unit {0})

abbrev pub at_least : Option Number → Number → Bool
at_least none value = true
at_least (some min) value = leb min value

abbrev pub at_most : Option Number → Number → Bool
at_most none value = true
at_most (some max) value = leb value max

-- `assertConfigValue`; a JSON number is finite
unfoldable pub assert_config_value : ConfigOption → ChangeValue → Check
assert_config_value option value = elim option.value [
  | boolean old ↦ guard (elim value [ boolean_value b ↦ true | _ ↦ false ]) invalid_transition
  | string old ↦ guard (elim value [ text_value t ↦ true | _ ↦ false ]) invalid_transition
  | number old min max ↦
      guard (elim value [ number_value n ↦ at_least min n && at_most max n | _ ↦ false ])
        invalid_transition
  | select old choices ↦
      guard
        (elim value [
          | text_value t ↦ includes (map (λ (c : SelectChoice). c.id) choices) t
          | _ ↦ false
        ])
        invalid_reference
]

abbrev pub answer_to : List (String × List String) → String → Option (List String)
answer_to [] id = none
answer_to ((k, values) ∷ rest) id = if str_eq id k then some values else answer_to rest id

abbrev pub is_single : List String → Bool
is_single (v ∷ []) = true
is_single _ = false

abbrev pub is_truth : List String → Bool
is_truth [] = false
is_truth (v ∷ vs) = str_eq v "true" || str_eq v "false"

abbrev pub is_other_allowed : Option Bool → Bool
is_other_allowed none = false
is_other_allowed (some b) = b

abbrev pub are_known : List QuestionChoice → Option Bool → List String → Bool
are_known options other values =
    every (λ v. is_other_allowed other || includes (choice_ids options) v) values

-- the answer to one question
abbrev pub assert_answer : InputQuestion → Option (List String) → Check
assert_answer q none = guard (not q.required) invalid_transition
assert_answer q (some values) = elim q.question_type [
  | multi_select options other ↦ do
    guard (distinct values) invalid_transition
    guard (are_known options other values) invalid_reference
  | single_select options other ↦ do
    guard (is_single values) invalid_transition
    guard (are_known options other values) invalid_reference
  | confirm_question ↦ do
    guard (is_single values) invalid_transition
    guard (is_truth values) invalid_transition
  | _ ↦ guard (is_single values) invalid_transition
]

-- `assertInputResolution`
unfoldable pub assert_input_resolution : List InputQuestion → InputAnswer → Check
assert_input_resolution questions cancelled = ok tt
assert_input_resolution questions (answered answers) = do
  for_each (λ id. guard (includes (question_ids questions) id) invalid_reference)
      (answer_ids answers)
  for_each (λ (q : InputQuestion). assert_answer q (answer_to answers q.id)) questions

-- `assertResolution` of a command that resolves
unfoldable pub assert_resolution : InteractionRequest → InteractionResolution → Check
unfolding assert_input_resolution
assert_resolution (permission_request r) (permission (selected id)) =
    guard (includes (option_ids r.options) id) invalid_reference
assert_resolution (permission_request r) (permission permission_cancelled) = ok tt
assert_resolution (input_request questions) (input answer) =
    assert_input_resolution questions answer
assert_resolution (tool_request n i) (tool t) = ok tt
assert_resolution (extension_request n r) (extension m v) = guard (str_eq m n) invalid_transition
assert_resolution _ _ = err invalid_transition

unfoldable pub command_content : CommandBody → List ContentBlock
command_content (run_start id blocks parent retry) = blocks
command_content (run_steer id blocks) = blocks
command_content (interaction_resolve id (tool (tool_completed output value))) = output
command_content _ = []

abbrev pub assert_parent : SessionSnapshot → Option String → Check
assert_parent s none = guard (not (any is_active_top_level s.runs)) invalid_transition
assert_parent s (some id) = do
  guard (advertises s.session "run.child") unsupported
  parent ← require (run_by_id s.runs id) invalid_reference
  guard (is_active (run_status parent)) invalid_transition

abbrev pub assert_retry : SessionSnapshot → Option String → Check
assert_retry s none = ok tt
assert_retry s (some id) = do
  previous ← require (run_by_id s.runs id) invalid_reference
  guard (not (is_active (run_status previous))) invalid_transition

abbrev pub assert_change : Session → Change → Check
assert_change session change = do
  option ←
      require (find (λ (o : ConfigOption). str_eq o.id change.config_id) session.config)
        invalid_reference
  assert_config_value option change.value

abbrev pub is_expected : Option ℕ → ℕ → Bool
is_expected none revision = true
is_expected (some r) revision = r == revision

-- what each kind of command asks of an open session; `while_running` reads the field `whileRunning` of
-- a capability
module _ (while_running : Json → Bool) where
  abbrev pub may_configure : Option Json → Bool → Bool
  may_configure none active = false
  may_configure (some capability) active = not active || while_running capability

  unfoldable pub assert_body : SessionSnapshot → Timestamp → Command → CommandBody → Check
  unfolding assert_config_value assert_resolution
  assert_body s now c (run_start id blocks parent retry) = do
    guard (not (includes (run_ids s.runs) id)) invalid_reference
    assert_parent s parent
    assert_retry s retry
  assert_body s now c (run_steer id blocks) = do
    run ← require (run_by_id s.runs id) invalid_reference
    guard (is_active_top_level run) invalid_transition
    guard (advertises s.session "run.steer") unsupported
    guard (not (is_some (find (is_item id c.command_id) s.items))) duplicate_entity
  assert_body s now c (run_cancel id reason) = do
    run ← require (run_by_id s.runs id) invalid_reference
    ok tt
  assert_body s now c (session_configure changes) = do
    guard
        (may_configure (entry s.session.capabilities "session.configure")
          (any is_active_top_level s.runs))
        unsupported
    for_each (assert_change s.session) changes
  assert_body s now c (interaction_resolve id resolution) = do
    i ← require (find (is_interaction id) s.interactions) invalid_reference
    guard (is_open i.status) invalid_transition
    guard (is_earlier (compare_timestamps now i.expires_at)) invalid_transition
    assert_resolution i.request resolution
  assert_body s now c (session_close reason) = ok tt

  -- a close is always admitted, and in a closed session the cancellation of a run that has ended
  unfoldable pub assert_command : SessionSnapshot → Timestamp → Command → CommandBody → Check
  unfolding assert_body
  assert_command s now c (session_close reason) = ok tt
  assert_command s now c (run_cancel id reason) =
      if is_closed s.session.status
      then (do
        run ← require (run_by_id s.runs id) invalid_reference
        guard (not (is_active (run_status run))) invalid_transition)
      else assert_body s now c (run_cancel id reason)
  assert_command s now c body = do
    guard (not (is_closed s.session.status)) invalid_transition
    assert_body s now c body

  unfoldable pub validate_command :
      SessionSnapshot → Command → Timestamp → Result ContractError Command
  unfolding assert_command command_content canonical_command
  validate_command snapshot value now =
      let c = canonical_command value in
      do
        s ← validate_session_snapshot snapshot
        guard (command_schema c) schema_error
        guard (str_eq c.session_id s.session.id) session_mismatch
        guard (is_expected c.expected_revision s.revision) stale_revision
        guard (not (is_earlier (compare_timestamps now s.captured_at))) invalid_transition
        assert_content_capabilities s.session (command_content c.body)
        assert_command s now c c.body
        ok c
