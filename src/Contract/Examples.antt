-- ===== src/Contract/Examples.antt =====
-- Tests of the contract's reducer and validation (src/contract/reducer.ts,
-- src/contract/state-validation.ts) on a small session.
use mosoo_agent_driver.Base.{
  ◌+◌, ◌≤◌, ◌≡◌, ◌≢◌, ◌↔◌, ◌⊎◌, refl, ap, String, true, false, none, some, List, [], ◌∷◌, All,
  every, ok, err, ◌>>=◌,
}
use mosoo_agent_driver.Contract.Canonical.{canonical_snapshot, canonical_mutation}
use mosoo_agent_driver.Contract.Common.Ids.{canonical_id}
use mosoo_agent_driver.Contract.Common.{
  out_of_fuel, compare_digits, compare_timestamps, assert_not_before, assert_not_after,
}
use mosoo_agent_driver.Contract.Content.{has_blob_ref, content_extension_names}
use mosoo_agent_driver.Contract.State
use mosoo_agent_driver.Contract.State.{Session, Run, Item, RunOutcome, run_status, is_active}
use mosoo_agent_driver.Contract.Samples.{at, session, a_run, done, snapshot, family}
use mosoo_agent_driver.Contract.Interaction as interactions
use mosoo_agent_driver.Contract.Interaction.{Interaction}
use mosoo_agent_driver.Contract.Snapshot
use mosoo_agent_driver.Contract.Snapshot.{
  SessionSnapshot, AuthorityOperation, CommittedMutation, snapshot_schema, item_schema,
  interaction_schema, mutation_schema, item_content, interaction_content, state_content,
}
use mosoo_agent_driver.Contract.Transition.{
  includes, distinct, assert_unique, entry, assert_run_transition,
}
use mosoo_agent_driver.Contract.Put
use mosoo_agent_driver.Contract.RunGraph.{run_by_id, chase, complete_all, assert_acyclic}
use mosoo_agent_driver.Contract.RunGraph.Acyclic.{Ends}
use mosoo_agent_driver.Contract.RunGraph.Fuel.{acyclic_check_terminates}
use mosoo_agent_driver.Contract.RunGraph.Complete.{acyclic_iff_chains_end}
use mosoo_agent_driver.Contract.Validate.Activity.{no_active_top_level}
use mosoo_agent_driver.Contract.Reducer.Apply.{apply_log, accepted_mutation, redelivery}
use mosoo_agent_driver.Contract.Reducer.Lifecycle.{interaction_by_id}
use mosoo_agent_driver.Contract.Reducer.Final.{
  terminal_run_final, ended_interaction_final, closed_session_final,
}
use mosoo_agent_driver.Contract.Reducer.Orphans.{removal_leaves_no_orphan}
use mosoo_agent_driver.Contract.Reducer.Activity.{idle_is_quiet}
use mosoo_agent_driver.Contract.Sync.{
  mutation_sync, sync_payload_schema, mutation_sync_schema, is_chain, apply_payload, apply_batch,
  apply_sync_payload, canonical_payload,
}
use mosoo_agent_driver.Contract.Sync.Forward.{sync_goes_forward}
use mosoo_agent_driver.Contract.Checks.{
  assert_config, assert_session, distinct_keys, assert_identities, assert_content_capabilities,
  assert_one_active, assert_child, assert_run,
}
use mosoo_agent_driver.Contract.Validate.{
  assert_interaction, assert_closed, validate_state, validate_session_snapshot,
}
use mosoo_agent_driver.Contract.Reducer.{
  target, distinct_targets, writable_run_ids, collect_one, collect_pass, collect_removed, prune,
  remove_tree, apply_operation, apply_operations, draft_of, next_snapshot, assert_applicable,
  assert_retries, advance, apply_mutation, activity_of, derive_session_activity, idle, is_remove,
}

abbrev mutation : List AuthorityOperation → CommittedMutation
mutation operations = record {
  mutation_id = "m";
  session_id = "s";
  base_revision = 1;
  cause = Snapshot.system "test";
  operations = operations;
  extensions = none;
  revision = 2;
  committed_at = at "t";
}

-- a run starts
abbrev start : CommittedMutation
start = mutation (Snapshot.put_run (a_run "d" none State.running) ∷ [])

abbrev started : SessionSnapshot
started = next_snapshot start (record {
  session = session;
  runs =
      a_run "a" none done
      ∷ (a_run "b" (some "a") done ∷ (a_run "c" none done ∷ (a_run "d" none State.running ∷ [])));
  items = [];
  interactions = [];
})

start_applies : apply_mutation (snapshot family) start ≡ ok started
unfolding apply_mutation advance assert_applicable compare_timestamps compare_digits
    assert_not_before distinct_targets target writable_run_ids includes apply_operations
    apply_operation draft_of next_snapshot Put.put_run assert_run_transition assert_retries
    validate_state assert_session assert_config assert_unique distinct assert_not_after
    assert_identities distinct_keys assert_content_capabilities state_content has_blob_ref
    content_extension_names assert_one_active assert_run assert_child entry assert_acyclic
    complete_all chase assert_closed
start_applies = refl

accepted_mutation_example :
    (start.session_id ≡ session.id)
    × (started.session.id ≡ session.id)
    × ((start.revision ≤ (snapshot family).revision) × (started ≡ snapshot family)
        ⊎ (start.base_revision ≡ (snapshot family).revision)
          × (start.revision ≡ (snapshot family).revision + 1)
          × (started.revision ≡ start.revision)
          × (validate_state started ≡ ok tt))
unfolding next_snapshot
accepted_mutation_example = accepted_mutation (snapshot family) start started start_applies

redelivery_example :
    All (λ (m : CommittedMutation). apply_mutation started m ≡ ok started) (start ∷ [])
unfolding apply_log
redelivery_example = redelivery (start ∷ []) (snapshot family) started start_logged
  where
    start_logged : apply_log (start ∷ []) (snapshot family) ≡ ok started
    start_logged = ap (λ r. r >>= apply_log []) start_applies

terminal_run_final_example :
    (run_by_id started.runs "a" ≡ some (a_run "a" none done))
    ⊎ (every is_remove start.operations ≡ true) × (run_by_id started.runs "a" ≡ none)
unfolding next_snapshot
terminal_run_final_example =
    terminal_run_final (snapshot family) start started "a" (a_run "a" none done) start_applies refl
      refl

acyclic_iff_chains_end_example :
    (assert_acyclic family (λ (r : Run). r.parent_run_id) ≡ ok tt)
    ↔ All (Ends family (λ (r : Run). r.parent_run_id)) family
unfolding distinct includes
acyclic_iff_chains_end_example = acyclic_iff_chains_end family (λ (r : Run). r.parent_run_id) refl

acyclic_check_terminates_example :
    assert_acyclic family (λ (r : Run). r.parent_run_id) ≢ err out_of_fuel
unfolding distinct includes
acyclic_check_terminates_example =
    acyclic_check_terminates family (λ (r : Run). r.parent_run_id) refl

family_valid : validate_state (snapshot family) ≡ ok tt
unfolding compare_timestamps compare_digits assert_not_before includes validate_state assert_session
    assert_config assert_unique distinct assert_not_after assert_identities distinct_keys
    assert_content_capabilities state_content has_blob_ref content_extension_names assert_one_active
    assert_run assert_child entry assert_acyclic complete_all chase assert_closed
family_valid = refl

no_active_top_level_example :
    ((id : String) (r : Run) → run_by_id family id ≡ some r → is_active (run_status r) ≡ false)
    × Unit {0}
no_active_top_level_example = no_active_top_level (snapshot family) family_valid refl

family_idle : derive_session_activity (snapshot family) ≡ ok idle
unfolding derive_session_activity canonical_snapshot validate_session_snapshot snapshot_schema
    activity_of compare_timestamps compare_digits assert_not_before includes validate_state
    assert_session assert_config assert_unique distinct assert_not_after assert_identities
    distinct_keys assert_content_capabilities state_content has_blob_ref content_extension_names
    assert_one_active assert_run assert_child entry assert_acyclic complete_all chase assert_closed
family_idle = refl

idle_is_quiet_example :
    (false ≡ false)
    × (false ≡ false)
    × ((id : String) (r : Run)
        → run_by_id (canonical_snapshot (snapshot family)).runs id ≡ some r
        → is_active (run_status r) ≡ false)
    × Unit {0}
unfolding canonical_snapshot
idle_is_quiet_example = idle_is_quiet (snapshot family) family_idle

-- the run and its child are removed
pruned :
    remove_tree "a" (draft_of (snapshot family))
    ≡ ok (draft_of (snapshot (a_run "c" none done ∷ [])))
unfolding remove_tree collect_removed collect_pass collect_one prune includes draft_of
pruned = refl

removal_leaves_no_orphan_example :
    (run_by_id (a_run "c" none done ∷ []) "a" ≡ none) × (Unit {0} × Unit {0})
unfolding draft_of
removal_leaves_no_orphan_example =
    removal_leaves_no_orphan "a" (draft_of (snapshot family))
      (draft_of (snapshot (a_run "c" none done ∷ []))) pruned

-- a closed session, from which a run is removed
abbrev shut : List Run → SessionSnapshot
shut runs = record (snapshot runs) {
  session = record session { status = State.closed_session; closed_at = some (at "t") };
}

abbrev compact : CommittedMutation
compact = mutation (Snapshot.remove_run "a" Snapshot.compacted ∷ [])

abbrev compacted : SessionSnapshot
compacted = record (shut (a_run "c" none done ∷ [])) { revision = 2 }

compact_applies : apply_mutation (shut family) compact ≡ ok compacted
unfolding apply_mutation advance assert_applicable compare_timestamps compare_digits
    assert_not_before distinct_targets target writable_run_ids includes apply_operations
    apply_operation draft_of remove_tree collect_removed collect_pass collect_one prune
    next_snapshot assert_retries validate_state assert_session assert_config assert_unique distinct
    assert_not_after assert_identities distinct_keys assert_content_capabilities state_content
    has_blob_ref content_extension_names assert_one_active assert_run assert_child entry
    assert_acyclic complete_all chase assert_closed
compact_applies = refl

closed_session_final_example : compacted.session ≡ (shut family).session
closed_session_final_example =
    closed_session_final (shut family) compact compacted compact_applies refl

-- a request to a tool that expired
abbrev request : Interaction
request = record {
  id = "q";
  run_id = "a";
  item_id = none;
  status = interactions.expired;
  blocking = true;
  created_at = at "t";
  expires_at = record { text = "u"; second = 6; fraction = [] };
  ended_at = some (at "t");
  audience = State.participants;
  provenance = none;
  extensions = none;
  request = interactions.tool_request "search" none;
  resolution = none;
}

abbrev asked : List Run → SessionSnapshot
asked runs = record (snapshot runs) {
  session = record session { capabilities = ("run.child", "{}") ∷ ("interaction.tool", "{}") ∷ [] };
  interactions = request ∷ [];
}

abbrev asked_start : SessionSnapshot
asked_start = record (asked started.runs) { revision = 2 }

asked_applies : apply_mutation (asked family) start ≡ ok asked_start
unfolding apply_mutation advance assert_applicable compare_timestamps compare_digits
    assert_not_before distinct_targets target writable_run_ids includes apply_operations
    apply_operation draft_of next_snapshot Put.put_run assert_run_transition assert_retries
    validate_state assert_session assert_config assert_unique distinct assert_not_after
    assert_identities distinct_keys assert_content_capabilities state_content has_blob_ref
    content_extension_names assert_one_active assert_run assert_child entry assert_acyclic
    complete_all chase assert_closed assert_interaction Put.assert_interaction_content
    interaction_content
asked_applies = refl

ended_interaction_final_example : interaction_by_id asked_start.interactions "q" ≡ some request
unfolding next_snapshot
ended_interaction_final_example =
    ended_interaction_final (asked family) start asked_start "q" request asked_applies refl refl
      refl

-- as the parse returns it
abbrev parsed_start : SessionSnapshot
unfolding canonical_snapshot
parsed_start = canonical_snapshot started

-- a batch of one mutation
sync_applies :
    apply_sync_payload
      (some (snapshot family))
      (mutation_sync (record { base_revision = 1; through_revision = 2; mutations = start ∷ [] }))
    ≡ ok parsed_start
unfolding apply_sync_payload canonical_snapshot canonical_payload canonical_mutation
    sync_payload_schema mutation_sync_schema mutation_schema is_chain apply_payload apply_batch
    apply_log validate_session_snapshot snapshot_schema apply_mutation advance assert_applicable
    compare_timestamps compare_digits assert_not_before distinct_targets target writable_run_ids
    includes apply_operations apply_operation draft_of next_snapshot Put.put_run
    assert_run_transition assert_retries validate_state assert_session assert_config assert_unique
    distinct assert_not_after assert_identities distinct_keys assert_content_capabilities
    state_content has_blob_ref content_extension_names assert_one_active assert_run assert_child
    entry assert_acyclic complete_all chase assert_closed
sync_applies = refl

sync_goes_forward_example :
    (parsed_start.session.id ≡ canonical_id session.id)
    × ((snapshot family).revision ≤ parsed_start.revision)
    × (validate_state parsed_start ≡ ok tt)
sync_goes_forward_example = sync_goes_forward (snapshot family) parsed_start _ sync_applies
