-- ===== src/Contract/Validate.antt =====
-- The checks of `validateState` on items and interactions, the check of a whole snapshot, and
-- `validateSessionSnapshot` without admission limits (src/contract/state-validation.ts).
pub mod Admitted
pub mod Activity
use mosoo_agent_driver.Base.{
  String, Bool, true, false, not, ◌&&◌, ◌||◌, Option, none, some, List, [], ◌∷◌, ◌++◌, every, find,
  str_eq, is_some, or_else, if◌then◌else◌, Result, ok, err, guard, require, ◌>>=◌, ◌>>◌, for_each,
}
use mosoo_agent_driver.Contract.Canonical.{canonical_snapshot}
use mosoo_agent_driver.Contract.Common.{
  ContractError, invalid_reference, invalid_transition, unsupported, schema_error, Timestamp,
  compare_timestamps, is_earlier, is_later, assert_not_before, assert_not_after,
}
use mosoo_agent_driver.Contract.State.{
  Session, Run, run_status, run_ended_at, is_active, Item, ItemBody, message, plan, tool,
  item_extension, artifact, change, reasoning, terminal, PlanEntry, Role, agent_role, user_role,
}
use mosoo_agent_driver.Contract.Interaction.{
  Interaction, is_open, is_resolved, InteractionRequest, permission_request, input_request,
  tool_request, extension_request, PermissionSubject, item_subject, extension_subject,
  resource_subject,
}
use mosoo_agent_driver.Contract.Snapshot.{SessionSnapshot, snapshot_schema, state_content}
use mosoo_agent_driver.Contract.Transition.{assert_unique}
use mosoo_agent_driver.Contract.Put.{is_item, assert_interaction_content}
use mosoo_agent_driver.Contract.RunGraph.{run_by_id, assert_acyclic}
use mosoo_agent_driver.Contract.Checks.{
  is_terminal_run, is_terminal_interaction, advertises, not_before_end, is_closed, assert_session,
  assert_identities, assert_content_capabilities, assert_one_active, assert_run,
}

abbrev Check : Type 0
Check = Result ContractError (Unit {0})

-- the capability that an item needs
abbrev item_capability : ItemBody → Option String
item_capability (item_extension name v) = some name
item_capability (artifact n d c) = some "item.artifact"
item_capability (change c) = some "item.change"
item_capability (plan e x) = some "item.plan"
item_capability (reasoning c) = some "item.reasoning"
item_capability (terminal t) = some "item.terminal"
item_capability (message r p c) = none
item_capability (tool t) = none

abbrev assert_capability : Session → Option String → Check
assert_capability session none = ok tt
assert_capability session (some name) = guard (advertises session name) unsupported

abbrev entry_ids : List PlanEntry → List String
entry_ids [] = []
entry_ids (e ∷ es) = elim e.id [ none ↦ entry_ids es | some id ↦ id ∷ entry_ids es ]

abbrev is_terminal_body : Option Item → Bool
is_terminal_body none = false
is_terminal_body (some i) = elim i.body [ terminal t ↦ true | _ ↦ false ]

abbrev is_agent_role : Role → Bool
is_agent_role agent_role = true
is_agent_role user_role = false

-- what only one kind of item has
abbrev assert_body : List Item → Item → Check
assert_body items i = elim i.body [
  | message role phase c ↦ guard (is_agent_role role || not (is_some phase)) invalid_transition
  | plan entries x ↦ assert_unique (entry_ids entries)
  | tool t ↦ elim t.terminal_item_id [
    | none ↦ ok tt
    | some id ↦ guard (is_terminal_body (find (is_item i.run_id id) items)) invalid_reference
  ]
  | _ ↦ ok tt
]

-- `assertNotBefore(run.endedAt, t)` for a terminal run
abbrev ends_after : Run → Timestamp → Check
ends_after run t = if is_terminal_run run then assert_not_before (run_ended_at run) t else ok tt

abbrev ends_after_end : Run → Option Timestamp → Check
ends_after_end run none = ok tt
ends_after_end run (some t) = ends_after run t

unfoldable pub assert_item : SessionSnapshot → Item → Check
assert_item s i = do
  assert_not_before (some i.updated_at) i.created_at
  assert_not_before i.ended_at i.created_at
  assert_not_after (some i.created_at) s.captured_at
  assert_not_after (some i.updated_at) s.captured_at
  assert_not_after i.ended_at s.captured_at
  run ← require (run_by_id s.runs i.run_id) invalid_reference
  assert_not_before (some i.created_at) run.started_at
  guard (not (is_active i.status) || is_active (run_status run)) invalid_transition
  ends_after run i.updated_at
  ends_after_end run i.ended_at
  assert_capability s.session (item_capability i.body)
  assert_body s.items i

abbrev pub interaction_capability : InteractionRequest → String
interaction_capability (extension_request name r) = name
interaction_capability (permission_request r) = "interaction.permission"
interaction_capability (input_request q) = "interaction.input"
interaction_capability (tool_request n i) = "interaction.tool"

-- a subject that the session has to know
abbrev assert_subject : SessionSnapshot → Interaction → Check
assert_subject s i = elim i.request [
  | permission_request r ↦ elim r.subject [
    | item_subject id ↦ guard (is_some (find (is_item i.run_id id) s.items)) invalid_reference
    | extension_subject name v ↦ guard (advertises s.session name) unsupported
    | resource_subject o t ↦ ok tt
  ]
  | _ ↦ ok tt
]

abbrev pub ended_in_time : Option Timestamp → Timestamp → Bool
ended_in_time none expires_at = false
ended_in_time (some t) expires_at = is_earlier (compare_timestamps t expires_at)

abbrev assert_known_item : SessionSnapshot → Interaction → Option String → Check
assert_known_item s i none = ok tt
assert_known_item s i (some id) =
    guard (is_some (find (is_item i.run_id id) s.items)) invalid_reference

unfoldable pub assert_interaction : SessionSnapshot → Interaction → Check
assert_interaction s i = do
  assert_interaction_content i
  guard (advertises s.session (interaction_capability i.request)) unsupported
  guard (is_later (compare_timestamps i.expires_at i.created_at)) invalid_transition
  guard (not (is_open i.status) || is_later (compare_timestamps i.expires_at s.captured_at))
      invalid_transition
  assert_not_before i.ended_at i.created_at
  assert_not_after (some i.created_at) s.captured_at
  assert_not_after i.ended_at s.captured_at
  guard (not (is_resolved i.status) || ended_in_time i.ended_at i.expires_at) invalid_transition
  run ← require (run_by_id s.runs i.run_id) invalid_reference
  assert_not_before (some i.created_at) run.started_at
  guard (not (is_open i.status) || is_active (run_status run)) invalid_transition
  ends_after run (or_else i.ended_at i.created_at)
  assert_known_item s i i.item_id
  assert_subject s i

-- What a closed session may hold.
unfoldable pub assert_closed : SessionSnapshot → Check
assert_closed s =
    if is_closed s.session.status
    then (do
      guard (every is_terminal_run s.runs && every is_terminal_interaction s.interactions)
          invalid_transition
      closed_at ← require s.session.closed_at invalid_transition
      for_each (not_before_end (some closed_at)) s.runs
      for_each (λ (i : Item). assert_not_before (some closed_at) (or_else i.ended_at i.updated_at))
          s.items
      for_each
          (λ (i : Interaction). elim i.ended_at [
            | none ↦ ok tt
            | some t ↦ assert_not_before (some closed_at) t
          ])
          s.interactions)
    else ok tt

unfoldable pub validate_state : SessionSnapshot → Check
validate_state s = do
  assert_session s.session s.captured_at
  assert_identities s
  assert_content_capabilities s.session (state_content s.runs s.items s.interactions)
  assert_one_active s.runs
  for_each (assert_run s) s.runs
  assert_acyclic s.runs (λ (r : Run). r.parent_run_id)
  assert_acyclic s.runs (λ (r : Run). r.retry_of)
  for_each (assert_item s) s.items
  for_each (assert_interaction s) s.interactions
  assert_closed s

-- The schema first, which turns the protocol's identities into canonical form, then the state.
unfoldable pub validate_session_snapshot : SessionSnapshot → Result ContractError SessionSnapshot
unfolding canonical_snapshot
validate_session_snapshot value =
    let s = canonical_snapshot value in
    do guard (snapshot_schema s) schema_error; validate_state s; ok s
