-- ===== src/Contract/Canonical.antt =====
-- What the parse of an admitted value changes (the schemas of src/contract): each identity that is a
-- `protocolIdSchema` is turned into its canonical form. Identities of items, options and questions are
-- opaque and stay.
use mosoo_agent_driver.Base.{List, map}
use mathlib.Core.Option.{map as option_map}
use mosoo_agent_driver.Contract.Common.Ids.{canonical_id}
use mosoo_agent_driver.Contract.Content.{ContentBlock, blob_ref}
use mosoo_agent_driver.Contract.State.{
  SessionParent, Session, Run, FileChange, ItemBody, message, reasoning, tool, terminal, change,
  artifact, Item,
}
use mosoo_agent_driver.Contract.Interaction.{
  ToolResolution, tool_completed, Resolution, tool_resolution, Interaction,
}
use mosoo_agent_driver.Contract.Snapshot.{
  SessionSnapshot, AuthorityOperation, put_session, put_run, put_item, put_interaction, remove_run,
  MutationCause, command, CommittedMutation,
}

abbrev pub canonical_block : ContentBlock → ContentBlock
canonical_block (blob_ref b alt) = blob_ref (record b { blob_id = canonical_id b.blob_id }) alt
canonical_block block = block

abbrev pub canonical_content : List ContentBlock → List ContentBlock
canonical_content blocks = map canonical_block blocks

abbrev pub canonical_session : Session → Session
canonical_session s = record s {
  id = canonical_id s.id;
  parent =
      option_map (λ (p : SessionParent). record p { session_id = canonical_id p.session_id })
        s.parent;
}

abbrev pub canonical_run : Run → Run
canonical_run r = record r {
  id = canonical_id r.id;
  input = canonical_content r.input;
  parent_run_id = option_map canonical_id r.parent_run_id;
  retry_of = option_map canonical_id r.retry_of;
}

abbrev canonical_change : FileChange → FileChange
canonical_change c = record c { diff = option_map canonical_block c.diff }

abbrev pub canonical_body : ItemBody → ItemBody
canonical_body (message role phase content) = message role phase (canonical_content content)
canonical_body (reasoning content) = reasoning (canonical_content content)
canonical_body (tool t) = tool (record t { output = option_map canonical_content t.output })
canonical_body (terminal t) =
    terminal (record t { stdout = canonical_content t.stdout; stderr = canonical_content t.stderr })
canonical_body (change changes) = change (map canonical_change changes)
canonical_body (artifact name description content) =
    artifact name description (canonical_content content)
canonical_body body = body

abbrev pub canonical_item : Item → Item
canonical_item i = record i { run_id = canonical_id i.run_id; body = canonical_body i.body }

abbrev pub canonical_tool_resolution : ToolResolution → ToolResolution
canonical_tool_resolution (tool_completed output extra) =
    tool_completed (canonical_content output) extra
canonical_tool_resolution resolution = resolution

abbrev canonical_resolution : Resolution → Resolution
canonical_resolution (tool_resolution r) = tool_resolution (canonical_tool_resolution r)
canonical_resolution resolution = resolution

abbrev pub canonical_interaction : Interaction → Interaction
canonical_interaction i = record i {
  id = canonical_id i.id;
  run_id = canonical_id i.run_id;
  resolution = option_map canonical_resolution i.resolution;
}

-- what `sessionSnapshotSchema.parse` returns of a snapshot that it admits
unfoldable pub canonical_snapshot : SessionSnapshot → SessionSnapshot
canonical_snapshot s = record s {
  session = canonical_session s.session;
  runs = map canonical_run s.runs;
  items = map canonical_item s.items;
  interactions = map canonical_interaction s.interactions;
}

abbrev pub canonical_operation : AuthorityOperation → AuthorityOperation
canonical_operation (put_session s) = put_session (canonical_session s)
canonical_operation (put_run r) = put_run (canonical_run r)
canonical_operation (put_item i) = put_item (canonical_item i)
canonical_operation (put_interaction i) = put_interaction (canonical_interaction i)
canonical_operation (remove_run id reason) = remove_run (canonical_id id) reason

abbrev pub canonical_cause : MutationCause → MutationCause
canonical_cause (command id) = command (canonical_id id)
canonical_cause cause = cause

-- what `committedMutationSchema.parse` returns of a mutation that it admits
unfoldable pub canonical_mutation : CommittedMutation → CommittedMutation
canonical_mutation m = record m {
  mutation_id = canonical_id m.mutation_id;
  session_id = canonical_id m.session_id;
  cause = canonical_cause m.cause;
  operations = map canonical_operation m.operations;
}
