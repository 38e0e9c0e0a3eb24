-- ===== src/Contract/Sync.antt =====
-- The synchronisation of a snapshot (`applySyncPayload` of src/contract/reducer.ts without admission
-- limits, and the schemas of src/contract/sync.ts): a payload is a newer snapshot or a batch of
-- mutations.
pub mod Forward
use mosoo_agent_driver.Base.{
  ℕ, ◌+◌, String, Bool, true, false, not, ◌&&◌, ◌||◌, Option, none, some, List, [], ◌∷◌, map,
  length, every, filter, ltb, leb, ◌==◌, str_eq, is_some, if◌then◌else◌, Result, ok, err, guard,
  require, ◌>>=◌, ◌>>◌,
}
use mosoo_agent_driver.Contract.Canonical.{canonical_snapshot, canonical_mutation}
use mosoo_agent_driver.Contract.Common.{
  ContractError, schema_error, session_mismatch, revision_gap, compare_timestamps, is_earlier,
  assert_not_before,
}
use mosoo_agent_driver.Contract.State.{Session}
use mosoo_agent_driver.Contract.Snapshot.{
  SessionSnapshot, CommittedMutation, snapshot_schema, mutation_schema,
}
use mosoo_agent_driver.Contract.Transition.{distinct}
use mosoo_agent_driver.Contract.Validate.{validate_session_snapshot}
use mosoo_agent_driver.Contract.Reducer.Apply.{apply_log}

pub record SnapshotSync : Type 0 where
  pub snapshot : SessionSnapshot
  pub minimum_resume_revision : ℕ

pub record MutationSync : Type 0 where
  pub base_revision : ℕ
  pub through_revision : ℕ
  pub mutations : List CommittedMutation

pub data SyncPayload : Type 0 where
  snapshot_sync : SnapshotSync → SyncPayload
  mutation_sync : MutationSync → SyncPayload

-- each mutation stands on the one before it
unfoldable pub is_chain : ℕ → List CommittedMutation → Bool
is_chain base [] = true
is_chain base (m ∷ ms) = m.base_revision == base && m.revision == base + 1 && is_chain (base + 1) ms

-- the identity of the session of the batch, that of its first mutation
abbrev pub batch_session_id : List CommittedMutation → Option String
batch_session_id [] = none
batch_session_id (m ∷ ms) = some m.session_id

abbrev pub is_of_session : Option String → CommittedMutation → Bool
is_of_session none m = true
is_of_session (some id) m = str_eq m.session_id id

-- the schema of a batch
unfoldable pub mutation_sync_schema : MutationSync → Bool
unfolding is_chain
mutation_sync_schema batch =
    every mutation_schema batch.mutations
    && is_chain batch.base_revision batch.mutations
    && every (is_of_session (batch_session_id batch.mutations)) batch.mutations
    && distinct (map (λ (m : CommittedMutation). m.mutation_id) batch.mutations)
    && batch.through_revision == batch.base_revision + length batch.mutations

unfoldable pub sync_payload_schema : SyncPayload → Bool
unfolding mutation_sync_schema
sync_payload_schema (snapshot_sync sync) =
    snapshot_schema sync.snapshot && leb sync.minimum_resume_revision sync.snapshot.revision
sync_payload_schema (mutation_sync batch) = mutation_sync_schema batch

-- `currentValue === undefined ? undefined : validateSessionSnapshot(currentValue)`
abbrev pub validate_current : Option SessionSnapshot → Result ContractError (Option SessionSnapshot)
validate_current none = ok none
validate_current (some s) = do v ← validate_session_snapshot s; ok (some v)

-- what `syncPayloadSchema.parse` returns of a payload that it admits
unfoldable pub canonical_payload : SyncPayload → SyncPayload
unfolding canonical_snapshot canonical_mutation
canonical_payload (snapshot_sync sync) =
    snapshot_sync (record sync { snapshot = canonical_snapshot sync.snapshot })
canonical_payload (mutation_sync batch) =
    mutation_sync (record batch { mutations = map canonical_mutation batch.mutations })

-- a snapshot that is older than the current one
unfoldable pub is_stale : SessionSnapshot → SessionSnapshot → Bool
is_stale next current =
    ltb next.revision current.revision
    || next.revision == current.revision
      && is_earlier (compare_timestamps next.captured_at current.captured_at)

unfoldable pub replace_snapshot :
    Option SessionSnapshot → SessionSnapshot → Result ContractError SessionSnapshot
unfolding is_stale
replace_snapshot none next = ok next
replace_snapshot (some current) next = do
  guard (str_eq current.session.id next.session.id) session_mismatch
  if is_stale next current
      then ok current
      else (do assert_not_before (some next.captured_at) current.captured_at; ok next)

unfoldable pub apply_batch :
    Option SessionSnapshot → MutationSync → Result ContractError SessionSnapshot
apply_batch none batch = err revision_gap
apply_batch (some current) batch = do
  guard (leb batch.base_revision current.revision) revision_gap
  guard
      (elim (batch_session_id batch.mutations) [
        | none ↦ true
        | some id ↦ str_eq id current.session.id
      ])
      session_mismatch
  if leb batch.through_revision current.revision
      then ok current
      else apply_log
          (filter (λ (m : CommittedMutation). ltb current.revision m.revision) batch.mutations)
          current

-- the payload on the validated snapshot, if there is one
unfoldable pub apply_payload :
    Option SessionSnapshot → SyncPayload → Result ContractError SessionSnapshot
unfolding replace_snapshot apply_batch
apply_payload current (snapshot_sync sync) = do
  next ← validate_session_snapshot sync.snapshot
  replace_snapshot current next
apply_payload current (mutation_sync batch) = apply_batch current batch

-- `applySyncPayload`
unfoldable pub apply_sync_payload :
    Option SessionSnapshot → SyncPayload → Result ContractError SessionSnapshot
unfolding sync_payload_schema apply_payload canonical_payload
apply_sync_payload value given =
    let payload = canonical_payload given in
    do
      guard (sync_payload_schema payload) schema_error
      current ← validate_current value
      apply_payload current payload
