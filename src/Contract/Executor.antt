-- ===== src/Contract/Executor.antt =====
-- The mutations that an executor proposes (src/contract/executor-mutation.ts), without admission
-- limits. The dates of the host are parameters: `Date.parse`, and the text of a point in time.
pub mod Times
pub mod Entities
pub mod Timed
pub mod InTime
mod Examples
use mosoo_agent_driver.Base.{
  ℕ, ◌+◌, ◌-◌, String, Bool, true, false, not, ◌&&◌, ◌||◌, Option, none, some, List, [], ◌∷◌, map,
  every, find, leb, ◌==◌, str_eq, if◌then◌else◌, or_else, Json, Result, ok, err, guard, require,
  ◌>>=◌, ◌>>◌, for_each,
}
use mosoo_agent_driver.Contract.Common.Ids.{canonical_id}
use mosoo_agent_driver.Contract.Canonical.{canonical_cause, canonical_operation}
use mosoo_agent_driver.Contract.Common.{
  ContractError, session_mismatch, stale_revision, invalid_transition, unsupported, schema_error,
  range_error, Timestamp, compare_timestamps, is_earlier, is_later,
}
use mosoo_agent_driver.Contract.State.{
  Run, RunOutcome, running, run_completed, run_failed, run_cancelled, Item, ItemBody, message,
  is_active, Role, user_role, agent_role,
}
use mosoo_agent_driver.Contract.Interaction.{Interaction, is_open, is_resolved}
use mosoo_agent_driver.Contract.Snapshot.{
  SessionSnapshot, AuthorityOperation, put_session, put_run, put_item, put_interaction, remove_run,
  MutationCause, item_schema, interaction_schema, operation_schema, is_empty,
}
use mosoo_agent_driver.Contract.Transition.{includes}
use mosoo_agent_driver.Contract.Put.{is_item, is_interaction}
use mosoo_agent_driver.Contract.RunGraph.{run_by_id}
use mosoo_agent_driver.Contract.Checks.{is_user, run_ids}
use mosoo_agent_driver.Contract.Validate.{validate_session_snapshot}

pub record ProposedMutation : Type 0 where
  pub mutation_id : String
  pub session_id : String
  pub base_revision : ℕ
  pub cause : MutationCause
  pub operations : List AuthorityOperation
  pub extensions : Option Json

unfoldable pub proposed_schema : ProposedMutation → Bool
proposed_schema m = not (is_empty m.operations) && every operation_schema m.operations

-- `Date.parse`, in milliseconds from a point before the year 0, and `new Date(…).toISOString()`, which
-- is none outside the range of dates
pub record Dates : Type 0 where
  pub parse : Timestamp → Option ℕ
  pub print : ℕ → Option Timestamp

abbrev pub is_user_message : ItemBody → Bool
is_user_message (message user_role phase content) = true
is_user_message _ = false

-- what `proposedMutationSchema.parse` returns of a mutation that it admits
unfoldable pub canonical_proposed : ProposedMutation → ProposedMutation
canonical_proposed m = record m {
  mutation_id = canonical_id m.mutation_id;
  session_id = canonical_id m.session_id;
  cause = canonical_cause m.cause;
  operations = map canonical_operation m.operations;
}

-- a round of the loop of `parseExecutorMutation`
unfoldable pub assert_operation :
    SessionSnapshot → AuthorityOperation → Result ContractError (Unit {0})
assert_operation s (put_session x) = err unsupported
assert_operation s (put_run r) =
    guard (includes (run_ids s.runs) r.id || not (is_user r.origin)) unsupported
assert_operation s (put_item i) = guard (not (is_user_message i.body)) unsupported
assert_operation s (put_interaction i) = guard (not (is_resolved i.status)) unsupported
assert_operation s (remove_run id reason) = err unsupported

-- `parseExecutorMutation` of the parsed mutation, up to its return of that
unfoldable pub parse_executor_mutation :
    SessionSnapshot → ProposedMutation → Result ContractError (Unit {0})
unfolding proposed_schema assert_operation
parse_executor_mutation s m = do
  guard (proposed_schema m) schema_error
  guard (str_eq m.session_id s.session.id) session_mismatch
  guard (m.base_revision == s.revision) stale_revision
  for_each (assert_operation s) m.operations

unfoldable pub validate_executor_mutation :
    SessionSnapshot → ProposedMutation → Result ContractError ProposedMutation
unfolding parse_executor_mutation canonical_proposed
validate_executor_mutation snapshot value =
    let m = canonical_proposed value in
    do s ← validate_session_snapshot snapshot; parse_executor_mutation s m; ok m

-- `{ ...value, endedAt: acceptedAt }` of a run that is not active
abbrev pub with_end : Timestamp → RunOutcome → RunOutcome
with_end t running = running
with_end t (run_completed e reason) = run_completed t reason
with_end t (run_failed e error) = run_failed t error
with_end t (run_cancelled e reason) = run_cancelled t reason

abbrev pub started : Option Run → Timestamp → Timestamp
started none accepted = accepted
started (some p) accepted = p.started_at

unfoldable pub normalize_run : Option Run → Timestamp → Run → Run
normalize_run previous accepted r = record r {
  started_at = started previous accepted;
  outcome = with_end accepted r.outcome;
}

abbrev pub created : Option Item → Timestamp → Timestamp
created none accepted = accepted
created (some p) accepted = p.created_at

abbrev pub item_end : Option Item → Timestamp → Timestamp
item_end none accepted = accepted
item_end (some p) accepted = if is_active p.status then accepted else or_else p.ended_at accepted

unfoldable pub normalize_item : Option Item → Timestamp → Item → Item
normalize_item previous accepted i = record i {
  created_at = created previous accepted;
  updated_at = accepted;
  ended_at = if is_active i.status then i.ended_at else some (item_end previous accepted);
}

abbrev pub at_least_one : ℕ → ℕ
at_least_one n = if leb 1 n then n else 1

abbrev pub min : ℕ → ℕ → ℕ
min a b = if leb a b then a else b

abbrev pub opened : Option Interaction → Timestamp → Timestamp
opened none accepted = accepted
opened (some p) accepted = p.created_at

unfoldable pub normalize_interaction :
    Option Interaction → Timestamp → Timestamp → Interaction → Interaction
normalize_interaction previous accepted expires_at i = record i {
  created_at = opened previous accepted;
  expires_at = expires_at;
  ended_at = if is_open i.status then i.ended_at else some accepted;
}

module _ (dates : Dates) where
  -- `Math.max(1, Date.parse(expiresAt) - Date.parse(createdAt))`; none is not a number
  unfoldable pub requested_ttl : Interaction → Option ℕ
  requested_ttl i = elim (dates.parse i.expires_at) [
    | none ↦ none
    | some expires ↦ elim (dates.parse i.created_at) [
      | none ↦ none
      | some created ↦ some (at_least_one (expires - created))
    ]
  ]

  -- the time at which a new interaction expires
  unfoldable pub deadline : Timestamp → ℕ → Interaction → Result ContractError Timestamp
  unfolding requested_ttl
  deadline accepted max_ttl i = do
    ttl ← require (requested_ttl i) invalid_transition
    guard (is_later (compare_timestamps i.expires_at i.created_at)) invalid_transition
    now ← require (dates.parse accepted) invalid_transition
    require (dates.print (now + min ttl max_ttl)) invalid_transition

  abbrev pub expiry :
      Option Interaction → Timestamp → ℕ → Interaction → Result ContractError Timestamp
  expiry none accepted max_ttl i = deadline accepted max_ttl i
  expiry (some p) accepted max_ttl i = ok p.expires_at

  unfoldable pub normalize_operation :
      SessionSnapshot → Timestamp → ℕ → AuthorityOperation → Result ContractError AuthorityOperation
  unfolding normalize_run normalize_item normalize_interaction deadline
  normalize_operation s accepted max_ttl (put_session x) = err unsupported
  normalize_operation s accepted max_ttl (put_run r) =
      ok (put_run (normalize_run (run_by_id s.runs r.id) accepted r))
  normalize_operation s accepted max_ttl (put_item i) =
      let next = normalize_item (find (is_item i.run_id i.id) s.items) accepted i in
      guard (item_schema next) schema_error >> ok (put_item next)
  normalize_operation s accepted max_ttl (put_interaction i) = do
    expires_at ← expiry (find (is_interaction i.id) s.interactions) accepted max_ttl i
    guard
        (interaction_schema
          (normalize_interaction (find (is_interaction i.id) s.interactions) accepted expires_at i))
        schema_error
    ok (
        put_interaction
          (normalize_interaction (find (is_interaction i.id) s.interactions) accepted expires_at i))
  normalize_operation s accepted max_ttl (remove_run id reason) = err unsupported

  unfoldable pub normalize_operations :
      SessionSnapshot
      → Timestamp
      → ℕ
      → List AuthorityOperation
      → Result ContractError (List AuthorityOperation)
  unfolding normalize_operation
  normalize_operations s accepted max_ttl [] = ok []
  normalize_operations s accepted max_ttl (o ∷ os) = do
    next ← normalize_operation s accepted max_ttl o
    rest ← normalize_operations s accepted max_ttl os
    ok (next ∷ rest)

  -- The mutation that it returns is not parsed again as a whole; the parse of each value that is put
  -- leaves its identities, which are canonical. The time of acceptance is a timestamp; the limit is an integer that a double holds
  unfoldable pub normalize_executor_mutation :
      SessionSnapshot → ProposedMutation → Timestamp → ℕ → Result ContractError ProposedMutation
  unfolding parse_executor_mutation canonical_proposed normalize_operations
  normalize_executor_mutation snapshot value accepted max_ttl =
      let m = canonical_proposed value in
      do
        s ← validate_session_snapshot snapshot
        parse_executor_mutation s m
        guard (leb 1 max_ttl) range_error
        guard (not (is_earlier (compare_timestamps accepted s.captured_at))) invalid_transition
        operations ← normalize_operations s accepted max_ttl m.operations
        ok (record m { operations = operations })
