-- ===== src/Contract/Preview/Examples.antt =====
-- Tests of the previews (src/contract/preview.ts, src/contract/preview-validation.ts) on a small
-- stream and a session with one active message.
use mosoo_agent_driver.Base.{◌≡◌, refl, false, none, List, [], ◌∷◌, ok}
use mosoo_agent_driver.Contract.Preview.Admission.{canonical_batch, AdmittedAs}
use mosoo_agent_driver.Contract.Canonical.{canonical_snapshot}
use mosoo_agent_driver.Contract.Common.{
  compare_timestamps, compare_digits, assert_not_before, assert_not_after,
}
use mosoo_agent_driver.Contract.Content.{has_blob_ref, content_extension_names}
use mosoo_agent_driver.Contract.Samples.{at, a_run, snapshot}
use mosoo_agent_driver.Contract.State
use mosoo_agent_driver.Contract.State.{Session, Run, Item, run_status, is_active}
use mosoo_agent_driver.Contract.Snapshot.{
  SessionSnapshot, snapshot_schema, state_content, item_content, item_schema,
}
use mosoo_agent_driver.Contract.Transition.{includes, distinct, assert_unique, entry}
use mosoo_agent_driver.Contract.RunGraph.{chase, complete_all, assert_acyclic}
use mosoo_agent_driver.Contract.Checks.{
  assert_config, assert_session, distinct_keys, assert_identities, assert_content_capabilities,
  assert_one_active, assert_child, assert_run,
}
use mosoo_agent_driver.Contract.Validate.{
  assert_item, assert_closed, validate_state, validate_session_snapshot,
}
use mosoo_agent_driver.Contract.Preview.{
  PreviewKey, PreviewUpdate, append, same_key, update_schema, is_duplicate, apply_new,
  apply_preview_update, merge_ops, merge_preview_updates, last_index, coalesce_one, coalesce_from,
  coalesce_preview_updates,
}
use mosoo_agent_driver.Contract.Preview.Streams.{after, merge_keeps_state}
use mosoo_agent_driver.Contract.Preview.Coalesce.{of_key}
use mosoo_agent_driver.Contract.Preview.Coalesced.{read, AreNew, coalesced_reads_the_same}
use mosoo_agent_driver.Contract.Preview.Buffer.{create_preview_buffer, PreviewBuffer}
use mosoo_agent_driver.Contract.Preview.Buffer as buffers
use mosoo_agent_driver.Contract.Preview.Bounds.{
  apply_all, IsBounded, pushes, settles, ends, fires, disposes, buffer-IsBounded, Event,
}
use mosoo_agent_driver.Contract.Preview.Admission.{
  PreviewBatch, preview_item_kind, batch_schema, assert_preview, assert_batch,
  validate_preview_batch, admitted_previews_have-Targets,
}

abbrev key : PreviewKey
key = record { item_id = "i"; stream_id = "x"; channel = "message.text"; segment = 0 }

abbrev first : PreviewUpdate
first = record { key = key; op = append 1; through_sequence = 2; text = "ab" }

abbrev second : PreviewUpdate
second = record { key = key; op = append 3; through_sequence = 3; text = "c" }

abbrev third : PreviewUpdate
third = record { key = key; op = append 5; through_sequence = 6; text = "ef" }

abbrev joined : PreviewUpdate
joined = record { key = key; op = append 1; through_sequence = 3; text = "abc" }

merge_keeps_state_example : after (after none first) second ≡ after none joined
unfolding merge_preview_updates same_key merge_ops update_schema is_duplicate
merge_keeps_state_example = merge_keeps_state none first second joined refl refl refl

-- the third update leaves a gap, which the merged list shows as well
coalesced : coalesce_preview_updates (first ∷ second ∷ third ∷ []) ≡ joined ∷ third ∷ []
unfolding coalesce_preview_updates coalesce_from coalesce_one last_index merge_preview_updates
    same_key merge_ops
coalesced = refl

coalesced_reads_the_same_example :
    AreNew none (of_key key (coalesce_preview_updates (first ∷ second ∷ third ∷ [])))
    × (read none (of_key key (coalesce_preview_updates (first ∷ second ∷ third ∷ [])))
        ≡ read none (of_key key (first ∷ second ∷ third ∷ [])))
unfolding same_key is_duplicate apply_new apply_preview_update update_schema
coalesced_reads_the_same_example =
    coalesced_reads_the_same key none (first ∷ second ∷ third ∷ []) (refl, (refl, (refl, tt)))
      (refl, (refl, (refl, tt)))

abbrev empty : PreviewBuffer
empty = record {
  max_bytes = 40;
  max_updates = 3;
  measure = λ u. 10;
  updates = [];
  bytes = 0;
  timer = false;
  draining = buffers.idle;
  flush_requested = false;
  disposed = false;
  flushed = [];
  dropped = [];
}

abbrev events : List Event
events = pushes first ∷ fires ∷ pushes second ∷ pushes third ∷ settles ∷ ends ∷ disposes ∷ []

buffer-IsBounded_example : IsBounded (apply_all empty events)
unfolding create_preview_buffer
buffer-IsBounded_example = buffer-IsBounded 40 5 3 (λ u. 10) empty events refl

abbrev answer : Item
answer = record {
  id = "i";
  run_id = "a";
  status = State.active;
  created_at = at "t";
  updated_at = at "t";
  ended_at = none;
  audience = State.participants;
  error = none;
  provenance = none;
  extensions = none;
  body = State.message State.agent_role none [];
}

abbrev answering : SessionSnapshot
answering = record (snapshot (a_run "a" none State.running ∷ [])) { items = answer ∷ [] }

abbrev batch : PreviewBatch
batch = record { session_id = "s"; run_id = "a"; emitted_at = at "t"; updates = first ∷ [] }

-- as the parse returns it
abbrev parsed : PreviewBatch
parsed = record batch { session_id = "S"; run_id = "A" }

batch_admitted : validate_preview_batch answering batch ≡ ok parsed
unfolding validate_preview_batch canonical_snapshot canonical_batch batch_schema update_schema
    assert_batch assert_preview preview_item_kind validate_session_snapshot snapshot_schema
    compare_timestamps compare_digits assert_not_before includes validate_state assert_session
    assert_config assert_unique distinct assert_not_after assert_identities distinct_keys
    assert_content_capabilities state_content has_blob_ref content_extension_names assert_one_active
    assert_run assert_child entry assert_acyclic complete_all chase assert_closed assert_item
    item_content item_schema State.ItemKind-discrete
batch_admitted = refl

admitted_previews_have-Targets_example : AdmittedAs answering batch parsed
admitted_previews_have-Targets_example =
    admitted_previews_have-Targets answering batch parsed batch_admitted
