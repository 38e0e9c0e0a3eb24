-- ===== src/Contract/Reducer/Apply.antt =====
-- What a successful `applyMutation` (src/contract/reducer.ts) does to the revision, the session and
-- the validity of a snapshot, and that a repeated mutation changes nothing.
use mosoo_agent_driver.Base.{
  ◌+◌, ◌≤◌, ◌<◌, ◌≡◌, refl, sym, ap, ◌∙◌, subst, ◌⊎◌, inl, inr, String, Bool, true, false, List, [],
  ◌∷◌, leb, ◌==◌, every, filter, str_eq, str_eq→eq, str_eq_self, if◌then◌else◌, Result, ok, require,
  ◌>>=◌, All, ◌&&◌, ◌>>◌, arith, >>=-eq-ok, guard-eq-ok,
}
use mosoo_agent_driver.Contract.Common.{
  ContractError, revision_gap, session_mismatch, immutable_entity, invalid_reference,
  invalid_transition,
}
use mosoo_agent_driver.Contract.State.{Session, Run}
use mosoo_agent_driver.Contract.Snapshot.{
  SessionSnapshot, AuthorityOperation, put_session, put_run, put_item, put_interaction, remove_run,
  CommittedMutation,
}
use mosoo_agent_driver.Contract.Transition.{includes, assert_session_transition}
use mosoo_agent_driver.Contract.Put
use mosoo_agent_driver.Contract.RunGraph.{run_by_id}
use mosoo_agent_driver.Contract.Checks.{is_terminal_run}
use mosoo_agent_driver.Contract.Validate.{validate_state}
use mosoo_agent_driver.Contract.Reducer.{
  Draft, prune, advance, remove_tree, apply_operation, apply_operations, draft_of, next_snapshot,
  assert_applicable, apply_mutation, assert_retries,
}

-- the identity check of a session's transition
transition-id : (a b : Session) (u : Unit {0}) → assert_session_transition a b ≡ ok u → a.id ≡ b.id
unfolding assert_session_transition
transition-id a b u h = str_eq→eq a.id b.id (guard-eq-ok (str_eq a.id b.id) immutable_entity _ h).0

prune-session :
    (removed : List String) (d d' : Draft) → prune removed d ≡ ok d' → d'.session ≡ d.session
unfolding prune
prune-session removed d d' h =
    let (terminal, k) =
      guard-eq-ok (every is_terminal_run (filter (λ (r : Run). includes removed r.id) d.runs))
        invalid_transition _ h in
    ground arith

remove_tree-session :
    (id : String) (d d' : Draft) → remove_tree id d ≡ ok d' → d'.session.id ≡ d.session.id
unfolding remove_tree
remove_tree-session id d d' h =
    let (root, e, h1) = >>=-eq-ok (require (run_by_id d.runs id) invalid_reference) _ h in
    ap Session.id (prune-session _ d d' h1)

operation-session_id :
    (o : AuthorityOperation) (d d' : Draft)
    → apply_operation o d ≡ ok d'
    → d'.session.id ≡ d.session.id
unfolding apply_operation
operation-session_id (put_session s) d d' h =
    let (u, e, k) = >>=-eq-ok (assert_session_transition d.session s) _ h in
    ground (arith, transition-id d.session s u e)
operation-session_id (put_run r) d d' h =
    let (x, e, k) = >>=-eq-ok (Put.put_run d.runs r) _ h in ground arith
operation-session_id (put_item r) d d' h =
    let (x, e, k) = >>=-eq-ok (Put.put_item d.items r) _ h in ground arith
operation-session_id (put_interaction r) d d' h =
    let (x, e, k) = >>=-eq-ok (Put.put_interaction d.interactions r) _ h in ground arith
operation-session_id (remove_run id reason) d d' h = remove_tree-session id d d' h

operations-session_id :
    (os : List AuthorityOperation) (d d' : Draft)
    → apply_operations os d ≡ ok d'
    → d'.session.id ≡ d.session.id
unfolding apply_operations
operations-session_id [] d d' h = ground arith
operations-session_id (o ∷ os) d d' h =
    let (e, p, k) = >>=-eq-ok (apply_operation o d) _ h in
    operations-session_id os e d' k ∙ operation-session_id o d e p

-- A successful mutation is one that the snapshot has already, or the next one: what the snapshot is
-- afterwards and which checks passed.
pub data Applied (current : SessionSnapshot) (m : CommittedMutation) (next : SessionSnapshot)
    : Type 0 where
  repeated : m.revision ≤ current.revision → next ≡ current → Applied current m next
  advanced :
      (d : Draft)
      → current.revision < m.revision
      → assert_applicable current m ≡ ok tt
      → apply_operations m.operations (draft_of current) ≡ ok d
      → validate_state next ≡ ok tt
      → next ≡ next_snapshot m d
      → Applied current m next

publish :
    (m : CommittedMutation) (d : Draft) (next : SessionSnapshot)
    → (validate_state (next_snapshot m d) >> ok (next_snapshot m d)) ≡ ok next
    → (validate_state next ≡ ok tt) × (next ≡ next_snapshot m d)
publish m d next h =
    let (u, e, k) =
      >>=-eq-ok (validate_state (next_snapshot m d)) (λ _. ok (next_snapshot m d)) h in
    let same_next : next ≡ next_snapshot m d = cc in (ap validate_state same_next ∙ e, same_next)

advance-Applied :
    (current : SessionSnapshot) (m : CommittedMutation) (next : SessionSnapshot)
    → current.revision < m.revision
    → advance current m ≡ ok next
    → Applied current m next
unfolding advance
advance-Applied current m next fresh h =
    let (u, e1, h1) = >>=-eq-ok (assert_applicable current m) _ h in
    let (d, e2, h2) = >>=-eq-ok (apply_operations m.operations (draft_of current)) _ h1 in
    let (u', e3, h3) = >>=-eq-ok (assert_retries current m d) _ h2 in
    let (valid, same_next) = publish m d next h3 in advanced d fresh e1 e2 valid same_next

pub apply_mutation-Applied :
    (current : SessionSnapshot) (m : CommittedMutation) (next : SessionSnapshot)
    → apply_mutation current m ≡ ok next
    → (m.session_id ≡ current.session.id) × Applied current m next
unfolding apply_mutation
apply_mutation-Applied current m next h =
    let (same_id, h1) = guard-eq-ok (str_eq m.session_id current.session.id) session_mismatch _ h in
    (str_eq→eq _ _ same_id, settle (leb m.revision current.revision) refl h1)
  where
    settle :
        (b : Bool)
        → leb m.revision current.revision ≡ b
        → (if b then ok current else advance current m) ≡ ok next
        → Applied current m next
    settle true old k = repeated (ground arith) cc
    settle false fresh k = advance-Applied current m next (ground arith) k

applicable-revision :
    (current : SessionSnapshot) (m : CommittedMutation) (u : Unit {0})
    → assert_applicable current m ≡ ok u
    → (m.base_revision ≡ current.revision) × (m.revision ≡ current.revision + 1)
unfolding assert_applicable
applicable-revision current m u h =
    let (next, h1) =
      guard-eq-ok (m.base_revision == current.revision && m.revision == current.revision + 1)
        revision_gap _ h in
    ground arith

-- A mutation that `applyMutation` accepts keeps the session's identity, which is the mutation's.
-- Either its revision is not past the snapshot's and the snapshot is returned as it was, or it
-- stands on exactly the snapshot's revision, the result has the next revision and the result passes
-- `validateState`.
pub accepted_mutation :
    (current : SessionSnapshot) (m : CommittedMutation) (next : SessionSnapshot)
    → apply_mutation current m ≡ ok next
    → (m.session_id ≡ current.session.id)
      × (next.session.id ≡ current.session.id)
      × ((m.revision ≤ current.revision) × (next ≡ current)
          ⊎ (m.base_revision ≡ current.revision)
            × (m.revision ≡ current.revision + 1)
            × (next.revision ≡ m.revision)
            × (validate_state next ≡ ok tt))
unfolding next_snapshot draft_of
accepted_mutation current m next h =
    let (same_id, applied) = apply_mutation-Applied current m next h in
    elim applied [
      | repeated old same_next ↦ (same_id, ap (λ s. s.session.id) same_next, inl (old, same_next))
      | advanced d fresh applicable operations valid same_next ↦
          let (base, revision) = applicable-revision current m _ applicable in
          (
            same_id,
            ap (λ s. s.session.id) same_next
                ∙ operations-session_id m.operations (draft_of current) d operations,
            inr (base, revision, ap SessionSnapshot.revision same_next, valid),
          )
    ]

-- a mutation that the snapshot has already
pub apply_mutation-old :
    (current : SessionSnapshot) (m : CommittedMutation)
    → m.session_id ≡ current.session.id
    → m.revision ≤ current.revision
    → apply_mutation current m ≡ ok current
unfolding apply_mutation
apply_mutation-old current m same_id old =
    let known : str_eq m.session_id current.session.id ≡ true =
      subst (λ x. str_eq m.session_id x ≡ true) same_id (str_eq_self m.session_id) in
    ground arith

-- the mutations of a log, applied in order
unfoldable pub apply_log :
    List CommittedMutation → SessionSnapshot → Result ContractError SessionSnapshot
apply_log [] s = ok s
apply_log (m ∷ ms) s = do s' ← apply_mutation s m; apply_log ms s'

pub log-grows :
    (ms : List CommittedMutation) (s t : SessionSnapshot)
    → apply_log ms s ≡ ok t
    → (t.session.id ≡ s.session.id) × (s.revision ≤ t.revision)
unfolding apply_log
log-grows [] s t h = ground arith
log-grows (m ∷ ms) s t h =
    let (s', e, k) = >>=-eq-ok (apply_mutation s m) (apply_log ms) h in
    let (same_id, kept, step) = accepted_mutation s m s' e in
    let (ids, grows) = log-grows ms s' t k in
    (
      ids ∙ kept,
      elim step [
        | inl (old, same_next) ↦
            let same_revision = ap SessionSnapshot.revision same_next in ground arith
        | inr (base, revision, next_revision, valid) ↦ ground arith
      ],
    )

-- After a log of mutations has been applied, the redelivery of any of them is accepted and changes
-- nothing.
pub redelivery :
    (ms : List CommittedMutation) (s t : SessionSnapshot)
    → apply_log ms s ≡ ok t
    → All (λ (m : CommittedMutation). apply_mutation t m ≡ ok t) ms
unfolding apply_log
redelivery [] s t h = tt
redelivery (m ∷ ms) s t h =
    let (s', e, k) = >>=-eq-ok (apply_mutation s m) (apply_log ms) h in
    let (same_id, kept, step) = accepted_mutation s m s' e in
    let (ids, grows) = log-grows ms s' t k in
    let bound : m.revision ≤ t.revision = elim step [
      | inl (old, same_next) ↦
          let same_revision = ap SessionSnapshot.revision same_next in ground arith
      | inr (base, revision, next_revision, valid) ↦ ground arith
    ] in
    (apply_mutation-old t m (same_id ∙ sym (ids ∙ kept)) bound, redelivery ms s' t k)
