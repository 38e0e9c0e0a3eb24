-- ===== src/Contract/Executor/InTime.antt =====
-- The times of the mutations that `normalizeExecutorMutation` returns
-- (src/contract/executor-mutation.ts).
use mosoo_agent_driver.Base.{
  ℕ, ◌+◌, ◌≤◌, String, ◌≡◌, refl, ap, subst, Bool, true, false, not, is_some, Option, none, some,
  List, [], ◌∷◌, map, find, All-find, leb, leb→le, ◌==◌, str_eq, str_eq→eq, if◌then◌else◌, ok,
  require, arith, All, >>=-eq-ok, guard-eq-ok, require-eq-ok,
}
use mosoo_agent_driver.Contract.Canonical.{canonical_snapshot}
use mosoo_agent_driver.Contract.Common.{
  invalid_transition, schema_error, range_error, session_mismatch, stale_revision, Timestamp,
  compare_timestamps, is_earlier, is_later,
}
use mosoo_agent_driver.Contract.Common.Order.{Before, Before-trans, Before-self, not_earlier-Before}
use mosoo_agent_driver.Contract.Executor.Timed.{timed, normalize_run-timed}
use mosoo_agent_driver.Contract.Executor.Entities.{
  RunInTime, ItemInTime, normalize_run-InTime, normalize_item-InTime,
}
use mosoo_agent_driver.Contract.Executor.Times.{EndsBetween, interaction-created}
use mosoo_agent_driver.Contract.Interaction.{Interaction, is_open}
use mosoo_agent_driver.Contract.Snapshot.{
  SessionSnapshot, AuthorityOperation, put_session, put_run, put_item, put_interaction, remove_run,
  item_schema, interaction_schema,
}
use mosoo_agent_driver.Contract.Put.{is_item, is_interaction}
use mosoo_agent_driver.Contract.RunGraph.{run_by_id}
use mosoo_agent_driver.Contract.Validate.{
  assert_interaction, validate_state, validate_session_snapshot,
}
use mosoo_agent_driver.Contract.Validate.Admitted.{Checked, validate_state-Checked}
use mosoo_agent_driver.Contract.Reducer.Activity.{validated}
use mosoo_agent_driver.Contract.Executor.{
  ProposedMutation, proposed_schema, Dates, parse_executor_mutation, normalize_run, normalize_item,
  opened, normalize_interaction, min, requested_ttl, deadline, expiry, normalize_operation,
  normalize_operations, normalize_executor_mutation, canonical_proposed,
}

-- The time that a new interaction is left: at least a millisecond, and at most the limit.
pub record IsLimited (dates : Dates) (max_ttl : ℕ) (accepted expires_at : Timestamp) : Type 0 where
  pub now : ℕ
  pub ttl : ℕ
  pub accepted_at : dates.parse accepted ≡ some now
  pub positive : 1 ≤ ttl
  pub within : ttl ≤ max_ttl
  pub expires : dates.print (now + ttl) ≡ some expires_at

pub record InteractionInTime (dates : Dates) (max_ttl : ℕ) (s : SessionSnapshot)
    (accepted : Timestamp) (i : Interaction) : Type 0 where
  pub times_kept :
      (p : Interaction)
      → find (is_interaction i.id) s.interactions ≡ some p
      → (i.created_at ≡ p.created_at) × (i.expires_at ≡ p.expires_at)
  pub limited :
      find (is_interaction i.id) s.interactions ≡ none
      → IsLimited dates max_ttl accepted i.expires_at
  pub created_before : Before i.created_at accepted
  pub ended_when : is_some i.ended_at ≡ not (is_open i.status)
  pub ends : EndsBetween i.created_at i.ended_at accepted

-- what an executor's operation may be, and its times
abbrev pub InTime : Dates → ℕ → SessionSnapshot → Timestamp → AuthorityOperation → Type 0
InTime dates max_ttl s accepted (put_session x) = ⊥
InTime dates max_ttl s accepted (put_run r) = RunInTime s accepted r
InTime dates max_ttl s accepted (put_item i) = ItemInTime s accepted i
InTime dates max_ttl s accepted (put_interaction i) = InteractionInTime dates max_ttl s accepted i
InTime dates max_ttl s accepted (remove_run id reason) = ⊥

module _ (s : SessionSnapshot) (accepted : Timestamp) (valid : Checked s)
    (late : Before s.captured_at accepted) where
  opened-Before :
      (id : String) (o : Option Interaction)
      → find (is_interaction id) s.interactions ≡ o
      → Before (opened o accepted) accepted
  opened-Before id none e = Before-self accepted
  opened-Before id (some p) e =
      Before-trans p.created_at s.captured_at accepted
        (interaction-created s p (
          All-find (λ (i : Interaction). assert_interaction s i ≡ ok tt) (is_interaction id)
            s.interactions p valid.interactions e))
        late

  module _ (dates : Dates) (max_ttl : ℕ) (positive : 1 ≤ max_ttl) where
    requested_ttl-positive :
        (i : Interaction) (ttl : ℕ) → requested_ttl dates i ≡ some ttl → 1 ≤ ttl
    unfolding requested_ttl
    requested_ttl-positive i ttl h = ground arith

    deadline-IsLimited :
        (i : Interaction) (x : Timestamp)
        → deadline dates accepted max_ttl i ≡ ok x
        → IsLimited dates max_ttl accepted x
    unfolding deadline
    deadline-IsLimited i x h =
        let (ttl, e1, h1) = >>=-eq-ok (require (requested_ttl dates i) invalid_transition) _ h in
        let (e2, h2) =
          guard-eq-ok (is_later (compare_timestamps i.expires_at i.created_at)) invalid_transition _
            h1 in
        let (now, e3, h3) = >>=-eq-ok (require (dates.parse accepted) invalid_transition) _ h2 in
        let least =
          requested_ttl-positive i ttl
            (require-eq-ok (requested_ttl dates i) invalid_transition e1) in
        record {
          now = now;
          ttl = min ttl max_ttl;
          accepted_at = require-eq-ok (dates.parse accepted) invalid_transition e3;
          positive = ground arith;
          within = ground arith;
          expires = require-eq-ok (dates.print (now + min ttl max_ttl)) invalid_transition h3;
        }

    normalize_interaction-InTime :
        (i : Interaction) (x : Timestamp)
        → expiry dates (find (is_interaction i.id) s.interactions) accepted max_ttl i ≡ ok x
        → interaction_schema
            (normalize_interaction (find (is_interaction i.id) s.interactions) accepted x i)
          ≡ true
        → InteractionInTime dates max_ttl s accepted
            (normalize_interaction (find (is_interaction i.id) s.interactions) accepted x i)
    unfolding normalize_interaction interaction_schema
    normalize_interaction-InTime i x h schema =
        let before = opened-Before i.id (find (is_interaction i.id) s.interactions) refl in
        record {
          times_kept = λ p e. (ap (λ o. opened o accepted) e, kept p e);
          limited = λ e.
              deadline-IsLimited i x (subst (λ o. expiry dates o accepted max_ttl i ≡ ok x) e h);
          created_before = before;
          ended_when = ground arith;
          ends = ends _ (is_open i.status) i.ended_at (ground arith) before;
        }
      where
        kept :
            (p : Interaction)
            → find (is_interaction i.id) s.interactions ≡ some p
            → x ≡ p.expires_at
        kept p e = let same = subst (λ o. expiry dates o accepted max_ttl i ≡ ok x) e h in cc

        ends :
            (start : Timestamp) (b : Bool) (o : Option Timestamp)
            → (b ≡ true → o ≡ none)
            → Before start accepted
            → EndsBetween start (if b then o else some accepted) accepted
        ends start true none h v = tt
        ends start true (some t) h v = absurd (cc (h refl))
        ends start false o h v = (v, Before-self accepted)

    normalize_operation-InTime :
        (o next : AuthorityOperation)
        → normalize_operation dates s accepted max_ttl o ≡ ok next
        → (timed accepted next ≡ timed accepted o) × InTime dates max_ttl s accepted next
    unfolding normalize_operation normalize_run normalize_item normalize_interaction
    normalize_operation-InTime (put_session x) next h = cc
    normalize_operation-InTime (remove_run id reason) next h = cc
    normalize_operation-InTime (put_run r) next h =
        let same : put_run (normalize_run (run_by_id s.runs r.id) accepted r) ≡ next = cc in
        subst
          (λ n. (timed accepted n ≡ timed accepted (put_run r)) × InTime dates max_ttl s accepted n)
          same
          (
            normalize_run-timed accepted accepted (run_by_id s.runs r.id) r,
            normalize_run-InTime s accepted valid late r,
          )
    normalize_operation-InTime (put_item i) next h =
        let (schema, h1) =
          guard-eq-ok
            (item_schema (normalize_item (find (is_item i.run_id i.id) s.items) accepted i))
            schema_error _ h in
        let same : put_item (normalize_item (find (is_item i.run_id i.id) s.items) accepted i)
            ≡ next =
          cc in
        subst
          (λ n.
            (timed accepted n ≡ timed accepted (put_item i)) × InTime dates max_ttl s accepted n)
          same (refl, normalize_item-InTime s accepted valid late i schema)
    normalize_operation-InTime (put_interaction i) next h =
        let (x, e, h1) =
          >>=-eq-ok (expiry dates (find (is_interaction i.id) s.interactions) accepted max_ttl i) _
            h in
        let (schema, h2) =
          guard-eq-ok
            (interaction_schema
              (normalize_interaction (find (is_interaction i.id) s.interactions) accepted x i))
            schema_error _ h1 in
        let same : put_interaction
              (normalize_interaction (find (is_interaction i.id) s.interactions) accepted x i)
            ≡ next =
          cc in
        subst
          (λ n.
            (timed accepted n ≡ timed accepted (put_interaction i))
            × InTime dates max_ttl s accepted n)
          same (refl, normalize_interaction-InTime i x e schema)

    normalize_operations-InTime :
        (os next : List AuthorityOperation)
        → normalize_operations dates s accepted max_ttl os ≡ ok next
        → (map (timed accepted) next ≡ map (timed accepted) os)
          × All (InTime dates max_ttl s accepted) next
    unfolding normalize_operations
    normalize_operations-InTime [] next h =
        let same : [] ≡ next = cc in
        subst (λ n. (map (timed accepted) n ≡ []) × All (InTime dates max_ttl s accepted) n) same
          (refl, tt)
    normalize_operations-InTime (o ∷ os) next h =
        let (n, e1, h1) = >>=-eq-ok (normalize_operation dates s accepted max_ttl o) _ h in
        let (ns, e2, h2) = >>=-eq-ok (normalize_operations dates s accepted max_ttl os) _ h1 in
        let (same_target, in_time) = normalize_operation-InTime o n e1 in
        let (same_targets, all_in_time) = normalize_operations-InTime os ns e2 in
        let same : n ∷ ns ≡ next = cc in
        subst
          (λ l.
            (map (timed accepted) l ≡ map (timed accepted) (o ∷ os))
            × All (InTime dates max_ttl s accepted) l)
          same (cc (same_target, same_targets), (in_time, all_in_time))

-- A mutation that `normalizeExecutorMutation` returns is the proposed one, with its identities in
-- canonical form as the parse returns it, with other times and nothing else changed. It is for the
-- snapshot, which is valid with its identities in canonical form, and its operations, in order, are
-- the proposed ones in all but the start, creation, update, expiry and end, and put runs, items and
-- interactions only. What is in the snapshot keeps its start or creation and, for an interaction,
-- its expiry; no start, creation or end is after the acceptance; no end is before its start; an
-- item or an interaction has an end when it is not active or open, and only then; and a new
-- interaction expires between a millisecond and the limit after the acceptance.
pub normalized-InTime :
    (dates : Dates) (s : SessionSnapshot) (m result : ProposedMutation) (accepted : Timestamp)
    (max_ttl : ℕ)
    → normalize_executor_mutation dates s m accepted max_ttl ≡ ok result
    → (validate_state (canonical_snapshot s) ≡ ok tt)
      × ((result.session_id ≡ (canonical_snapshot s).session.id)
          × (result.base_revision ≡ (canonical_snapshot s).revision))
      × (result ≡ record (canonical_proposed m) { operations = result.operations })
      × (map (timed accepted) result.operations
          ≡ map (timed accepted) (canonical_proposed m).operations)
      × All (InTime dates max_ttl (canonical_snapshot s) accepted) result.operations
unfolding normalize_executor_mutation parse_executor_mutation
normalized-InTime dates given value result accepted max_ttl h =
    let s = canonical_snapshot given in
    let m = canonical_proposed value in
    let (v, e, h1) = >>=-eq-ok (validate_session_snapshot given) _ h in
    let (same_s, valid) = validated given v e in
    let (u, e2, h2) = >>=-eq-ok (parse_executor_mutation v m) _ h1 in
    let (schema, g1) = guard-eq-ok (proposed_schema m) schema_error _ e2 in
    let (same_id, g2) = guard-eq-ok (str_eq m.session_id v.session.id) session_mismatch _ g1 in
    let (same_revision, g3) = guard-eq-ok (m.base_revision == v.revision) stale_revision _ g2 in
    let (limit, h3) = guard-eq-ok (leb 1 max_ttl) range_error _ h2 in
    let (late, h4) =
      guard-eq-ok (not (is_earlier (compare_timestamps accepted v.captured_at))) invalid_transition
        _ h3 in
    let (os, e5, h5) =
      >>=-eq-ok (normalize_operations dates v accepted max_ttl m.operations) _ h4 in
    let out : record m { operations = os } ≡ result = cc in
    let not_early : is_earlier (compare_timestamps accepted s.captured_at) ≡ false =
      subst (λ x. is_earlier (compare_timestamps accepted x.captured_at) ≡ false) same_s ground
        arith in
    let (targets, in_time) =
      normalize_operations-InTime s accepted (validate_state-Checked s valid)
        (not_earlier-Before s.captured_at accepted not_early) dates max_ttl (leb→le 1 max_ttl limit)
        m.operations os
        (subst (λ x. normalize_operations dates x accepted max_ttl m.operations ≡ ok os) same_s
          e5) in
    (
      valid,
      subst (λ r. (r.session_id ≡ s.session.id) × (r.base_revision ≡ s.revision)) out
          (subst (λ x. (m.session_id ≡ x.session.id) × (m.base_revision ≡ x.revision)) same_s
            (str_eq→eq m.session_id v.session.id same_id, ground arith)),
      cc,
      subst (λ r. map (timed accepted) r.operations ≡ map (timed accepted) m.operations) out
          targets,
      subst (λ r. All (InTime dates max_ttl s accepted) r.operations) out in_time,
    )
