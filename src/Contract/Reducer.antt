-- ===== src/Contract/Reducer.antt =====
-- The reducer (src/contract/reducer.ts): a committed mutation applied to a snapshot, and the
-- activity that a snapshot shows.
pub mod Removal
pub mod Apply
pub mod Lifecycle
pub mod Final
pub mod Orphans
pub mod Activity
use mosoo_agent_driver.Base.{
  ℕ, zero, suc, ◌+◌, String, Bool, true, false, not, ◌&&◌, ◌||◌, Option, none, some, List, [], ◌∷◌,
  ◌++◌, map, length, leb, ◌==◌, any, every, find, filter, str_eq, is_some, if◌then◌else◌, same,
  String-discrete, Result, ok, err, guard, require, ◌>>=◌, ◌>>◌, for_each,
}
use mosoo_agent_driver.Contract.Canonical.{canonical_mutation}
use mosoo_agent_driver.Contract.Common.{
  ContractError, duplicate_entity, invalid_reference, invalid_transition, revision_gap,
  session_mismatch, schema_error, Timestamp, assert_not_before,
}
use mosoo_agent_driver.Contract.State.{Session, Run, run_status, is_active, Item}
use mosoo_agent_driver.Contract.Interaction.{Interaction, is_open}
use mosoo_agent_driver.Contract.Snapshot.{
  SessionSnapshot, AuthorityOperation, put_session, put_run, put_item, put_interaction, remove_run,
  CommittedMutation, mutation_schema,
}
use mosoo_agent_driver.Contract.Transition.{includes, assert_session_transition}
use mosoo_agent_driver.Contract.Put
use mosoo_agent_driver.Contract.RunGraph.{run_by_id}
use mosoo_agent_driver.Contract.Checks.{
  is_terminal_run, assert_retry_target, run_ids, is_closed, is_active_top_level,
}
use mosoo_agent_driver.Contract.Validate.{validate_state, validate_session_snapshot}

abbrev pub protocol_version : ℕ
protocol_version = 3

-- The key of what an operation writes; a removal has the key of its run.
pub data OperationTarget : Type 0 where
  session_target run_target interaction_target : String → OperationTarget
  item_target : String → String → OperationTarget

pub OperationTarget-discrete : Discrete OperationTarget
OperationTarget-discrete = hlevel String-discrete

unfoldable pub target : AuthorityOperation → OperationTarget
target (put_session s) = session_target s.id
target (put_run r) = run_target r.id
target (put_item i) = item_target i.run_id i.id
target (put_interaction i) = interaction_target i.id
target (remove_run id reason) = run_target id

unfoldable pub distinct_targets : List AuthorityOperation → Bool
unfolding target
distinct_targets [] = true
distinct_targets (o ∷ os) =
    not (any (λ (p : AuthorityOperation). same OperationTarget-discrete (target p) (target o)) os)
    && distinct_targets os

abbrev pub is_remove : AuthorityOperation → Bool
is_remove (remove_run id reason) = true
is_remove _ = false

-- the runs that were active before the mutation, and those that it creates
abbrev created_run_ids : List String → List AuthorityOperation → List String
created_run_ids existing [] = []
created_run_ids existing (put_run r ∷ os) =
    let rest = created_run_ids existing os in if includes existing r.id then rest else r.id ∷ rest
created_run_ids existing (o ∷ os) = created_run_ids existing os

unfoldable pub writable_run_ids : List Run → List AuthorityOperation → List String
writable_run_ids runs operations =
    run_ids (filter (λ (r : Run). is_active (run_status r)) runs)
    ++ created_run_ids (run_ids runs) operations

abbrev assert_writable : List String → AuthorityOperation → Result ContractError (Unit {0})
assert_writable writable (put_item i) = guard (includes writable i.run_id) invalid_transition
assert_writable writable _ = ok tt

abbrev new_retries : List String → List AuthorityOperation → List Run
new_retries existing [] = []
new_retries existing (put_run r ∷ os) =
    let rest = new_retries existing os in
    if not (includes existing r.id) && is_some r.retry_of then r ∷ rest else rest
new_retries existing (o ∷ os) = new_retries existing os

-- the entities that the operations work on
pub record Draft : Type 0 where
  pub session : Session
  pub runs : List Run
  pub items : List Item
  pub interactions : List Interaction

-- One pass of the loop that collects the descendants of a removed run: each run whose parent is
-- collected is collected, in order.
unfoldable pub collect_one : Run → List String → List String
collect_one r removed = elim r.parent_run_id [
  | none ↦ removed
  | some parent ↦
      if includes removed parent && not (includes removed r.id) then r.id ∷ removed else removed
]

unfoldable pub collect_pass : List Run → List String → List String
unfolding collect_one
collect_pass [] removed = removed
collect_pass (r ∷ rs) removed = collect_pass rs (collect_one r removed)

-- `while (added)`: passes until one adds nothing. Each pass but the last adds a run, so the number
-- of runs is fuel enough.
unfoldable pub collect_removed : ℕ → List Run → List String → List String
unfolding collect_pass
collect_removed zero runs removed = removed
collect_removed (suc fuel) runs removed =
    let next = collect_pass runs removed in
    let rest = collect_removed fuel runs next in
    if length next == length removed then next else rest

-- the removal of the collected runs, each of which has to be terminal, with what belongs to them
unfoldable pub prune : List String → Draft → Result ContractError Draft
prune removed d = do
  guard (every is_terminal_run (filter (λ (r : Run). includes removed r.id) d.runs))
      invalid_transition
  ok (record d {
    runs = filter (λ (r : Run). not (includes removed r.id)) d.runs;
    items = filter (λ (i : Item). not (includes removed i.run_id)) d.items;
    interactions = filter (λ (i : Interaction). not (includes removed i.run_id)) d.interactions;
  })

unfoldable pub remove_tree : String → Draft → Result ContractError Draft
unfolding collect_removed prune
remove_tree id d = do
  root ← require (run_by_id d.runs id) invalid_reference
  prune (collect_removed (length d.runs) d.runs (root.id ∷ [])) d

unfoldable pub apply_operation : AuthorityOperation → Draft → Result ContractError Draft
unfolding remove_tree
apply_operation (put_session s) d = do
  assert_session_transition d.session s
  ok (record d { session = s })
apply_operation (put_run r) d = do runs ← Put.put_run d.runs r; ok (record d { runs = runs })
apply_operation (put_item i) d = do items ← Put.put_item d.items i; ok (record d { items = items })
apply_operation (put_interaction i) d = do
  interactions ← Put.put_interaction d.interactions i
  ok (record d { interactions = interactions })
apply_operation (remove_run id reason) d = remove_tree id d

unfoldable pub apply_operations : List AuthorityOperation → Draft → Result ContractError Draft
unfolding apply_operation
apply_operations [] d = ok d
apply_operations (o ∷ os) d = do d' ← apply_operation o d; apply_operations os d'

unfoldable pub draft_of : SessionSnapshot → Draft
draft_of s = record {
  session = s.session;
  runs = s.runs;
  items = s.items;
  interactions = s.interactions;
}

unfoldable pub next_snapshot : CommittedMutation → Draft → SessionSnapshot
next_snapshot m d = record {
  protocol_version = protocol_version;
  revision = m.revision;
  captured_at = m.committed_at;
  session = d.session;
  runs = d.runs;
  items = d.items;
  interactions = d.interactions;
}

-- the checks of a mutation before its operations run
unfoldable pub assert_applicable :
    SessionSnapshot → CommittedMutation → Result ContractError (Unit {0})
assert_applicable current m = do
  guard (m.base_revision == current.revision && m.revision == current.revision + 1) revision_gap
  assert_not_before (some m.committed_at) current.captured_at
  guard (not (any is_remove m.operations) || every is_remove m.operations) invalid_transition
  guard (distinct_targets m.operations) duplicate_entity
  for_each (assert_writable (writable_run_ids current.runs m.operations)) m.operations

-- the check of the new retries, once the operations have run
unfoldable pub assert_retries :
    SessionSnapshot → CommittedMutation → Draft → Result ContractError (Unit {0})
assert_retries current m d =
    for_each
      (λ (r : Run).
        assert_retry_target r (elim r.retry_of [ none ↦ none | some id ↦ run_by_id d.runs id ])
          true)
      (new_retries (run_ids current.runs) m.operations)

-- the part of `applyMutation` for a mutation that the snapshot does not have yet
unfoldable pub advance : SessionSnapshot → CommittedMutation → Result ContractError SessionSnapshot
unfolding draft_of next_snapshot assert_retries
advance current m = do
  assert_applicable current m
  d ← apply_operations m.operations (draft_of current)
  assert_retries current m d
  validate_state (next_snapshot m d)
  ok (next_snapshot m d)

-- `applyMutation`
unfoldable pub apply_mutation :
    SessionSnapshot → CommittedMutation → Result ContractError SessionSnapshot
unfolding advance
apply_mutation current m = do
  guard (str_eq m.session_id current.session.id) session_mismatch
  if leb m.revision current.revision then ok current else advance current m

unfoldable pub apply_committed_mutation :
    SessionSnapshot → CommittedMutation → Result ContractError SessionSnapshot
unfolding apply_mutation canonical_mutation
apply_committed_mutation current value =
    let m = canonical_mutation value in
    do
      s ← validate_session_snapshot current
      guard (mutation_schema m) schema_error
      apply_mutation s m

pub data SessionActivity : Type 0 where
  closed idle requires_action running : SessionActivity

-- the activity that an admitted snapshot shows
unfoldable pub activity_of : SessionSnapshot → SessionActivity
activity_of s =
    if is_closed s.session.status
    then closed
    else if any (λ (i : Interaction). is_open i.status && i.blocking) s.interactions
    then requires_action
    else if any is_active_top_level s.runs
    then running
    else idle

unfoldable pub derive_session_activity : SessionSnapshot → Result ContractError SessionActivity
unfolding activity_of
derive_session_activity value = do s ← validate_session_snapshot value; ok (activity_of s)
