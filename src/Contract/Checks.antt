-- ===== src/Contract/Checks.antt =====
-- The checks of `validateState` (src/contract/state-validation.ts) on a session and its runs, and
-- `assertRetryTarget` and the terminal tests of src/contract/invariant.ts.
use mosoo_agent_driver.Base.{
  String, Bool, true, false, not, ◌&&◌, ◌||◌, Option, none, some, List, [], ◌∷◌, map, length, leb,
  any, filter, str_eq, same_bool, is_some, if◌then◌else◌, Result, ok, guard, require, ◌>>=◌, ◌>>◌,
  for_each,
}
use mosoo_agent_driver.Contract.Common.{
  ContractError, duplicate_entity, invalid_reference, invalid_transition, unsupported, Timestamp,
  Number, assert_not_before, assert_not_after,
}
use mosoo_agent_driver.Contract.Content.{ContentBlock, has_blob_ref, content_extension_names}
use mosoo_agent_driver.Contract.State.{
  SelectChoice, number, select, ConfigOption, Session, SessionStatus, open_session, closed_session,
  SessionParent, Run, run_status, run_ended_at, is_active, Origin, user, agent, Item,
}
use mosoo_agent_driver.Contract.Interaction.{Interaction, is_open}
use mosoo_agent_driver.Contract.Snapshot.{SessionSnapshot, is_empty}
use mosoo_agent_driver.Contract.Transition.{entry, includes, assert_unique}
use mosoo_agent_driver.Contract.RunGraph.{run_by_id}

abbrev Check : Type 0
Check = Result ContractError (Unit {0})

abbrev pub is_terminal_run : Run → Bool
is_terminal_run run = not (is_active (run_status run))

abbrev pub is_terminal_interaction : Interaction → Bool
is_terminal_interaction i = not (is_open i.status) && is_some i.ended_at

-- `session.capabilities[name] !== undefined`
abbrev pub advertises : Session → String → Bool
advertises session name = is_some (entry session.capabilities name)

-- a lower bound that a terminal run always has
abbrev pub not_before_end : Option Timestamp → Run → Check
not_before_end t run = elim (run_ended_at run) [
  | none ↦ ok tt
  | some ended ↦ assert_not_before t ended
]

unfoldable pub assert_retry_target : Run → Option Run → Bool → Check
assert_retry_target run none required = guard (not required) invalid_reference
assert_retry_target run (some previous) required = do
  guard (is_terminal_run previous) invalid_transition
  not_before_end (some run.started_at) previous

abbrev within_range : Number → Option Number → Option Number → Bool
within_range value none none = true
within_range value none (some max) = leb value max
within_range value (some min) none = leb min value
within_range value (some min) (some max) = leb min max && leb min value && leb value max

-- `assertConfig` of one option
abbrev assert_option : ConfigOption → Check
assert_option option = elim option.value [
  | select value choices ↦ do
    assert_unique (map (λ (c : SelectChoice). c.id) choices)
    guard (includes (map (λ (c : SelectChoice). c.id) choices) value) invalid_reference
  | number value min max ↦ guard (within_range value min max) invalid_transition
  | _ ↦ ok tt
]

unfoldable pub assert_config : Session → Check
assert_config session = do
  assert_unique (map (λ (o : ConfigOption). o.id) session.config)
  for_each assert_option session.config

abbrev pub is_closed : SessionStatus → Bool
is_closed closed_session = true
is_closed open_session = false

-- `session.parent?.sessionId !== session.id`
abbrev foreign_parent : Option SessionParent → String → Bool
foreign_parent none id = true
foreign_parent (some p) id = not (str_eq p.session_id id)

unfoldable pub assert_session : Session → Timestamp → Check
unfolding assert_config
assert_session session captured_at = do
  assert_config session
  assert_not_before (some session.updated_at) session.created_at
  assert_not_before session.closed_at session.created_at
  assert_not_before session.closed_at session.updated_at
  assert_not_after (some session.created_at) captured_at
  assert_not_after (some session.updated_at) captured_at
  assert_not_after session.closed_at captured_at
  guard (same_bool (is_closed session.status) (is_some session.closed_at)) invalid_transition
  guard (foreign_parent session.parent session.id) invalid_reference

-- A run's identity and the item's as one key.
abbrev pub item_keys : List Item → List (String × String)
item_keys items = map (λ (i : Item). (i.run_id, i.id)) items

abbrev same_key : String × String → String × String → Bool
same_key (a, b) (c, d) = str_eq a c && str_eq b d

unfoldable pub distinct_keys : List (String × String) → Bool
distinct_keys [] = true
distinct_keys (k ∷ ks) = not (any (same_key k) ks) && distinct_keys ks

abbrev pub run_ids : List Run → List String
run_ids runs = map (λ (r : Run). r.id) runs

abbrev pub interaction_ids : List Interaction → List String
interaction_ids is = map (λ (i : Interaction). i.id) is

unfoldable pub assert_identities : SessionSnapshot → Check
unfolding distinct_keys
assert_identities s = do
  assert_unique (run_ids s.runs)
  guard (distinct_keys (item_keys s.items)) duplicate_entity
  assert_unique (interaction_ids s.interactions)

unfoldable pub assert_content_capabilities : Session → List ContentBlock → Check
assert_content_capabilities session content = do
  guard (not (has_blob_ref content) || advertises session "blob") unsupported
  for_each (λ name. guard (advertises session name) unsupported) (content_extension_names content)

abbrev pub is_active_top_level : Run → Bool
is_active_top_level run = is_active (run_status run) && not (is_some run.parent_run_id)

unfoldable pub assert_one_active : List Run → Check
assert_one_active runs = guard (leb (length (filter is_active_top_level runs)) 1) invalid_transition

abbrev pub is_user : Origin → Bool
is_user user = true
is_user _ = false

abbrev pub is_agent : Origin → Bool
is_agent agent = true
is_agent _ = false

-- the checks on a run against its parent
unfoldable pub assert_child : Session → List Run → Run → Option String → Check
assert_child session runs run none = ok tt
assert_child session runs run (some parent_id) = do
  guard (advertises session "run.child") unsupported
  parent ← require (run_by_id runs parent_id) invalid_reference
  assert_not_before (some run.started_at) parent.started_at
  guard (not (is_active (run_status run)) || is_active (run_status parent)) invalid_transition
  if is_terminal_run run && is_terminal_run parent
      then not_before_end (run_ended_at parent) run
      else ok tt

abbrev assert_retry : List Run → Run → Option String → Check
unfolding assert_retry_target
assert_retry runs run none = ok tt
assert_retry runs run (some previous) = assert_retry_target run (run_by_id runs previous) false

unfoldable pub assert_run : SessionSnapshot → Run → Check
unfolding assert_child assert_retry_target
assert_run s run = do
  assert_not_before (some run.started_at) s.session.created_at
  assert_not_after (some run.started_at) s.captured_at
  assert_not_before (run_ended_at run) run.started_at
  assert_not_after (run_ended_at run) s.captured_at
  guard (not (is_user run.origin) || not (is_empty run.input)) invalid_transition
  guard (not (is_agent run.origin) || advertises s.session "run.agent_initiated") unsupported
  assert_child s.session s.runs run run.parent_run_id
  assert_retry s.runs run run.retry_of
