-- ===== src/Contract/Preview/Admission.antt =====
-- Which previews a snapshot admits (`validatePreviewBatch` of src/contract/preview-validation.ts,
-- without admission limits).
use mosoo_agent_driver.Base.{
  ◌≡◌, refl, sym, ap, String, Bool, true, false, ◌&&◌, ◌||◌, Option, none, some, List, [], ◌∷◌, All,
  every, find, str_eq, str_eq→eq, is_some, same, same→eq, if◌then◌else◌, Result, ok, guard, require,
  ◌>>=◌, ◌>>◌, for_each, arith, >>=-eq-ok, guard-eq-ok, require-eq-ok, for_each-eq-ok, subst, ◌⊎◌,
  inl, inr,
}
use mosoo_agent_driver.Contract.Canonical.{canonical_snapshot}
use mosoo_agent_driver.Contract.Common.Ids.{canonical_id}
use mosoo_agent_driver.Contract.Common.{
  ContractError, schema_error, session_mismatch, invalid_reference, invalid_transition, unsupported,
  Timestamp,
}
use mosoo_agent_driver.Contract.State.{
  Run, run_status, is_active, Item, ItemKind, message_kind, reasoning_kind, terminal_kind,
  tool_kind, ItemKind-discrete, body_kind,
}
use mosoo_agent_driver.Contract.Snapshot.{SessionSnapshot}
use mosoo_agent_driver.Contract.Put.{is_item}
use mosoo_agent_driver.Contract.RunGraph.{run_by_id}
use mosoo_agent_driver.Contract.Checks.{advertises}
use mosoo_agent_driver.Contract.Validate.{validate_state, validate_session_snapshot}
use mosoo_agent_driver.Contract.Reducer.Activity.{validated}
use mosoo_agent_driver.Contract.Preview.{PreviewUpdate, update_schema}

pub record PreviewBatch : Type 0 where
  pub session_id : String
  pub run_id : String
  pub emitted_at : Timestamp
  pub updates : List PreviewUpdate

abbrev pub is_nonempty : List PreviewUpdate → Bool
is_nonempty [] = false
is_nonempty (u ∷ us) = true

unfoldable pub batch_schema : PreviewBatch → Bool
batch_schema batch = is_nonempty batch.updates && every update_schema batch.updates

-- the kind of item that a channel of the core writes to
unfoldable pub preview_item_kind : String → Option ItemKind
preview_item_kind channel =
    if str_eq channel "message.text"
    then some message_kind
    else if str_eq channel "reasoning.text"
    then some reasoning_kind
    else if str_eq channel "terminal.stderr" || str_eq channel "terminal.stdout"
    then some terminal_kind
    else if str_eq channel "tool.progress"
    then some tool_kind
    else none

abbrev pub kind_fits : Option ItemKind → Item → Bool
kind_fits none item = true
kind_fits (some kind) item = same ItemKind-discrete (body_kind item.body) kind

-- a round of the loop over the updates
unfoldable pub assert_preview :
    SessionSnapshot → String → PreviewUpdate → Result ContractError (Unit {0})
assert_preview s run_id u = do
  item ← require (find (is_item run_id u.key.item_id) s.items) invalid_reference
  guard (is_active item.status) invalid_transition
  guard (is_some (preview_item_kind u.key.channel) || advertises s.session u.key.channel)
      unsupported
  guard (kind_fits (preview_item_kind u.key.channel) item) invalid_reference

-- `validatePreviewBatch` of a snapshot that is validated
unfoldable pub assert_batch : SessionSnapshot → PreviewBatch → Result ContractError (Unit {0})
unfolding assert_preview
assert_batch s batch = do
  guard (str_eq batch.session_id s.session.id) session_mismatch
  run ← require (run_by_id s.runs batch.run_id) invalid_reference
  guard (is_active (run_status run)) invalid_transition
  for_each (assert_preview s batch.run_id) batch.updates

-- what `previewBatchSchema.parse` returns of a batch that it admits; the items' identities are opaque
unfoldable pub canonical_batch : PreviewBatch → PreviewBatch
canonical_batch b = record b {
  session_id = canonical_id b.session_id;
  run_id = canonical_id b.run_id;
}

unfoldable pub validate_preview_batch :
    SessionSnapshot → PreviewBatch → Result ContractError PreviewBatch
unfolding assert_batch canonical_batch
validate_preview_batch snapshot value =
    let batch = canonical_batch value in
    do
      s ← validate_session_snapshot snapshot
      guard (batch_schema batch) schema_error
      assert_batch s batch
      ok batch

-- The item that an update writes to: it exists in the run, it is active, and its kind is the channel's
-- or the session advertises the channel.
abbrev pub Targets : SessionSnapshot → String → PreviewUpdate → Type 0
Targets s run_id u =
    (item : Item) × (find (is_item run_id u.key.item_id) s.items ≡ some item)
    × (is_active item.status ≡ true)
    × ((preview_item_kind u.key.channel ≡ some (body_kind item.body))
        ⊎ ((preview_item_kind u.key.channel ≡ none) × (advertises s.session u.key.channel ≡ true)))

channel_target :
    (s : SessionSnapshot) (channel : String) (item : Item) (k : Option ItemKind) (u : Unit {0})
    → is_some k || advertises s.session channel ≡ true
    → guard (kind_fits k item) invalid_reference ≡ ok u
    → (k ≡ some (body_kind item.body)) ⊎ ((k ≡ none) × (advertises s.session channel ≡ true))
channel_target s channel item none u known fits = inr (refl, known)
channel_target s channel item (some kind) u known fits =
    let same_kind : same ItemKind-discrete (body_kind item.body) kind ≡ true = ground arith in
    inl (ap some (sym (same→eq ItemKind-discrete (body_kind item.body) kind same_kind)))

assert_preview-Targets :
    (s : SessionSnapshot) (run_id : String) (u : PreviewUpdate)
    → assert_preview s run_id u ≡ ok tt
    → Targets s run_id u
unfolding assert_preview
assert_preview-Targets s run_id u h =
    let (item, e, h1) =
      >>=-eq-ok (require (find (is_item run_id u.key.item_id) s.items) invalid_reference) _ h in
    let (alive, h2) = guard-eq-ok (is_active item.status) invalid_transition _ h1 in
    let (known, h3) =
      guard-eq-ok (is_some (preview_item_kind u.key.channel) || advertises s.session u.key.channel)
        unsupported _ h2 in
    (
      item,
      require-eq-ok (find (is_item run_id u.key.item_id) s.items) invalid_reference e,
      alive,
      channel_target s u.key.channel item (preview_item_kind u.key.channel) tt known h3,
    )

All-Targets :
    (s : SessionSnapshot) (run_id : String) (us : List PreviewUpdate)
    → All (λ (u : PreviewUpdate). assert_preview s run_id u ≡ ok tt) us
    → All (Targets s run_id) us
All-Targets s run_id [] h = tt
All-Targets s run_id (u ∷ us) h =
    (assert_preview-Targets s run_id u h.0, All-Targets s run_id us h.1)

-- The batch that is returned: the given one with its session and its run in canonical form, for an
-- active run of the session of the snapshot, which is valid, with targets for its updates.
abbrev pub AdmittedAs : SessionSnapshot → PreviewBatch → PreviewBatch → Type 0
AdmittedAs s batch result =
    (result ≡ record batch {
      session_id = canonical_id batch.session_id;
      run_id = canonical_id batch.run_id;
    })
    × (validate_state (canonical_snapshot s) ≡ ok tt)
    × (result.session_id ≡ (canonical_snapshot s).session.id)
    × ((run : Run) × (run_by_id (canonical_snapshot s).runs result.run_id ≡ some run)
        × (is_active (run_status run) ≡ true))
    × All (Targets (canonical_snapshot s) result.run_id) result.updates

-- A batch of previews that `validatePreviewBatch` admits is returned with its session and its run in
-- canonical form and nothing else changed. The snapshot, with its identities in canonical form as the
-- parse returns it, is one that `validateState` admits; the batch that is returned is for an active run
-- of that session, and each update writes to an active item of the run whose kind is that of the
-- channel, or the session advertises the channel.
pub admitted_previews_have-Targets :
    (s : SessionSnapshot) (batch result : PreviewBatch)
    → validate_preview_batch s batch ≡ ok result
    → AdmittedAs s batch result
unfolding validate_preview_batch assert_batch canonical_batch
admitted_previews_have-Targets given value result h =
    let s = canonical_snapshot given in
    let batch = canonical_batch value in
    let (v, e, h1) = >>=-eq-ok (validate_session_snapshot given) _ h in
    let (same_s, valid) = validated given v e in
    let (schema, h2) = guard-eq-ok (batch_schema batch) schema_error _ h1 in
    let (u, e2, h3) = >>=-eq-ok (assert_batch v batch) (λ _. ok batch) h2 in
    let (ids, k1) =
      guard-eq-ok (str_eq batch.session_id s.session.id) session_mismatch _
        (subst (λ x. assert_batch x batch ≡ ok u) same_s e2) in
    let (run, e4, k2) =
      >>=-eq-ok (require (run_by_id s.runs batch.run_id) invalid_reference) _ k1 in
    let (alive, k3) = guard-eq-ok (is_active (run_status run)) invalid_transition _ k2 in
    let same : batch ≡ result = cc in
    let targets =
      All-Targets s batch.run_id batch.updates
        (for_each-eq-ok (assert_preview s batch.run_id) batch.updates u k3) in
    subst (AdmittedAs given value) same (
      refl,
      valid,
      str_eq→eq batch.session_id s.session.id ids,
      (run, require-eq-ok (run_by_id s.runs batch.run_id) invalid_reference e4, alive),
      targets,
    )
