-- ===== src/Contract/Sync/Forward.antt =====
-- Synchronisation only goes forward (`applySyncPayload` of src/contract/reducer.ts).
use native.Mathlib.Nat.{le_refl}
use mosoo_agent_driver.Base.{
  ◌≤◌, ◌≡◌, refl, sym, ap, ◌∙◌, subst, inl, inr, Bool, true, false, none, some, List, [], ◌∷◌, ltb,
  leb, filter, str_eq, str_eq→eq, if◌then◌else◌, Result, ok, ◌>>◌, arith, >>=-eq-ok, guard-eq-ok,
}
use mosoo_agent_driver.Contract.Canonical.{canonical_snapshot}
use mosoo_agent_driver.Contract.Common.Ids.{canonical_id}
use mosoo_agent_driver.Contract.Common.{
  ContractError, schema_error, session_mismatch, revision_gap, assert_not_before,
}
use mosoo_agent_driver.Contract.Snapshot.{SessionSnapshot, CommittedMutation}
use mosoo_agent_driver.Contract.Validate.{validate_state, validate_session_snapshot}
use mosoo_agent_driver.Contract.Reducer.Apply.{accepted_mutation, apply_log, log-grows}
use mosoo_agent_driver.Contract.Reducer.{apply_mutation}
use mosoo_agent_driver.Contract.Reducer.Activity.{validated}
use mosoo_agent_driver.Contract.Sync.{
  SyncPayload, snapshot_sync, mutation_sync, MutationSync, sync_payload_schema, is_stale,
  replace_snapshot, apply_batch, apply_payload, validate_current, apply_sync_payload,
  canonical_payload, batch_session_id,
}

-- one snapshot of a session after another
pub record IsAfter (current next : SessionSnapshot) : Type 0 where
  pub same_session : next.session.id ≡ current.session.id
  pub not_older : current.revision ≤ next.revision
  pub valid : validate_state next ≡ ok tt

ok-injective :
    (s t : SessionSnapshot) → ◌≡◌ {A = Result ContractError SessionSnapshot} (ok s) (ok t) → s ≡ t
ok-injective s t h = cc

unchanged : (s : SessionSnapshot) → validate_state s ≡ ok tt → IsAfter s s
unchanged s v = record { same_session = refl; not_older = le_refl s.revision; valid = v }

not-stale :
    (next current : SessionSnapshot)
    → is_stale next current ≡ false
    → current.revision ≤ next.revision
unfolding is_stale
not-stale next current h = ground arith

log-valid :
    (ms : List CommittedMutation) (s t : SessionSnapshot)
    → apply_log ms s ≡ ok t
    → validate_state s ≡ ok tt
    → validate_state t ≡ ok tt
unfolding apply_log
log-valid [] s t h v = ap validate_state (sym (ok-injective s t h)) ∙ v
log-valid (m ∷ ms) s t h v =
    let (s', e, k) = >>=-eq-ok (apply_mutation s m) (apply_log ms) h in
    let (same_id, kept, step) = accepted_mutation s m s' e in
    log-valid ms s' t k (elim step [
      | inl (old, same_next) ↦ ap validate_state same_next ∙ v
      | inr (base, revision, next_revision, valid) ↦ valid
    ])

replace-IsAfter :
    (current next result : SessionSnapshot)
    → validate_state current ≡ ok tt
    → validate_state next ≡ ok tt
    → replace_snapshot (some current) next ≡ ok result
    → IsAfter current result
unfolding replace_snapshot
replace-IsAfter current next result v w h =
    let (ids, h1) = guard-eq-ok (str_eq current.session.id next.session.id) session_mismatch _ h in
    settle (is_stale next current) refl (str_eq→eq current.session.id next.session.id ids) h1
  where
    settle :
        (b : Bool)
        → is_stale next current ≡ b
        → current.session.id ≡ next.session.id
        → (if b
            then ok current
            else (do assert_not_before (some next.captured_at) current.captured_at; ok next))
          ≡ ok result
        → IsAfter current result
    settle true e same_id k =
        subst (IsAfter current) (ok-injective current result k) (unchanged current v)
    settle false e same_id k =
        let (u, e1, k1) =
          >>=-eq-ok (assert_not_before (some next.captured_at) current.captured_at) (λ _. ok next)
            k in
        subst (IsAfter current) (ok-injective next result k1)
          (record { same_session = sym same_id; not_older = not-stale next current e; valid = w })

log-IsAfter :
    (ms : List CommittedMutation) (current result : SessionSnapshot)
    → validate_state current ≡ ok tt
    → apply_log ms current ≡ ok result
    → IsAfter current result
log-IsAfter ms current result v h =
    let (ids, grows) = log-grows ms current result h in
    record { same_session = ids; not_older = grows; valid = log-valid ms current result h v }

batch-IsAfter :
    (current result : SessionSnapshot) (batch : MutationSync)
    → validate_state current ≡ ok tt
    → apply_batch (some current) batch ≡ ok result
    → IsAfter current result
unfolding apply_batch
batch-IsAfter current result batch v h =
    let (based, h1) = guard-eq-ok (leb batch.base_revision current.revision) revision_gap _ h in
    let (ids, h2) =
      guard-eq-ok
        (elim (batch_session_id batch.mutations) as (λ _. Bool) [
          | none ↦ true
          | some id ↦ str_eq id current.session.id
        ])
        session_mismatch _ h1 in
    settle (leb batch.through_revision current.revision) h2
  where
    newer : List CommittedMutation
    newer = filter (λ (m : CommittedMutation). ltb current.revision m.revision) batch.mutations

    settle :
        (b : Bool)
        → (if b then ok current else apply_log newer current) ≡ ok result
        → IsAfter current result
    settle true k = subst (IsAfter current) (ok-injective current result k) (unchanged current v)
    settle false k = log-IsAfter newer current result v k

payload-IsAfter :
    (current result : SessionSnapshot) (payload : SyncPayload)
    → validate_state current ≡ ok tt
    → apply_payload (some current) payload ≡ ok result
    → IsAfter current result
unfolding apply_payload
payload-IsAfter current result (snapshot_sync sync) v h =
    let (next, e, k) = >>=-eq-ok (validate_session_snapshot sync.snapshot) _ h in
    let (same_next, w) = validated sync.snapshot next e in
    replace-IsAfter current next result v (ap validate_state same_next ∙ w) k
payload-IsAfter current result (mutation_sync batch) v h = batch-IsAfter current result batch v h

-- When `applySyncPayload` accepts a payload on a snapshot, the result is a snapshot of the same
-- session, by the canonical form of its identity, is not older and passes `validateState`.
pub sync_goes_forward :
    (current result : SessionSnapshot) (payload : SyncPayload)
    → apply_sync_payload (some current) payload ≡ ok result
    → (result.session.id ≡ canonical_id current.session.id)
      × (current.revision ≤ result.revision)
      × (validate_state result ≡ ok tt)
unfolding apply_sync_payload
sync_goes_forward current result given h =
    let payload = canonical_payload given in
    let now = canonical_snapshot current in
    let (schema, h1) = guard-eq-ok (sync_payload_schema payload) schema_error _ h in
    let (checked, e, k) = >>=-eq-ok (validate_current (some current)) _ h1 in
    let (v, e1, e2) = >>=-eq-ok (validate_session_snapshot current) (λ v. ok (some v)) e in
    let (same_v, valid) = validated current v e1 in
    let is_given : checked ≡ some now = ground arith in
    let after =
      payload-IsAfter now result payload valid
        (subst (λ o. apply_payload o payload ≡ ok result) is_given k) in
    (
      unfold canonical_snapshot in after.same_session,
      unfold canonical_snapshot in after.not_older,
      after.valid,
    )
