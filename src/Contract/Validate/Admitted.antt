-- ===== src/Contract/Validate/Admitted.antt =====
-- What a snapshot is like that `validateState` (src/contract/state-validation.ts) admits.
use mosoo_agent_driver.Base.{
  ◌≡◌, String, true, not, ◌||◌, some, All, ok, require-eq-ok, require, for_each, arith, >>=-eq-ok,
  guard-eq-ok, for_each-eq-ok,
}
use mosoo_agent_driver.Contract.Common.{
  duplicate_entity, invalid_reference, invalid_transition, unsupported, assert_not_before,
  assert_not_after,
}
use mosoo_agent_driver.Contract.State.{Run, run_status, run_ended_at, is_active, Item}
use mosoo_agent_driver.Contract.Snapshot.{SessionSnapshot, state_content, is_empty}
use mosoo_agent_driver.Contract.Transition.{assert_unique, distinct}
use mosoo_agent_driver.Contract.RunGraph.{run_by_id, assert_acyclic}
use mosoo_agent_driver.Contract.Checks.{
  is_user, is_agent, run_ids, assert_session, assert_identities, assert_content_capabilities,
  assert_one_active, assert_child, assert_run, advertises,
}
use mosoo_agent_driver.Contract.Interaction.{Interaction}
use mosoo_agent_driver.Contract.Validate.{assert_item, assert_interaction, validate_state}

-- the checks that `validate_state` makes, each of which passed
pub record Checked (s : SessionSnapshot) : Type 0 where
  pub unique : distinct (run_ids s.runs) ≡ true
  pub one_active : assert_one_active s.runs ≡ ok tt
  pub runs : All (λ (r : Run). assert_run s r ≡ ok tt) s.runs
  pub parents : assert_acyclic s.runs (λ (r : Run). r.parent_run_id) ≡ ok tt
  pub retries : assert_acyclic s.runs (λ (r : Run). r.retry_of) ≡ ok tt
  pub items : All (λ (i : Item). assert_item s i ≡ ok tt) s.items
  pub interactions : All (λ (i : Interaction). assert_interaction s i ≡ ok tt) s.interactions

identities_unique :
    (s : SessionSnapshot) (u : Unit {0})
    → assert_identities s ≡ ok u
    → distinct (run_ids s.runs) ≡ true
unfolding assert_identities assert_unique
identities_unique s u h = (guard-eq-ok (distinct (run_ids s.runs)) duplicate_entity _ h).0

pub validate_state-Checked : (s : SessionSnapshot) → validate_state s ≡ ok tt → Checked s
unfolding validate_state
validate_state-Checked s h =
    let (a, e1, h1) = >>=-eq-ok (assert_session s.session s.captured_at) _ h in
    let (b, e2, h2) = >>=-eq-ok (assert_identities s) _ h1 in
    let (c, e3, h3) =
      >>=-eq-ok
        (assert_content_capabilities s.session (state_content s.runs s.items s.interactions)) _
        h2 in
    let (d, e4, h4) = >>=-eq-ok (assert_one_active s.runs) _ h3 in
    let (e, e5, h5) = >>=-eq-ok (for_each (assert_run s) s.runs) _ h4 in
    let (f, e6, h6) = >>=-eq-ok (assert_acyclic s.runs (λ (r : Run). r.parent_run_id)) _ h5 in
    let (g, e7, h7) = >>=-eq-ok (assert_acyclic s.runs (λ (r : Run). r.retry_of)) _ h6 in
    let (i, e8, h8) = >>=-eq-ok (for_each (assert_item s) s.items) _ h7 in
    let (j, e9, h9) = >>=-eq-ok (for_each (assert_interaction s) s.interactions) _ h8 in
    record {
      unique = identities_unique s b e2;
      one_active = e4;
      runs = for_each-eq-ok (assert_run s) s.runs e e5;
      parents = e6;
      retries = e7;
      items = for_each-eq-ok (assert_item s) s.items i e8;
      interactions = for_each-eq-ok (assert_interaction s) s.interactions j e9;
    }

pub run-child :
    (s : SessionSnapshot) (r : Run)
    → assert_run s r ≡ ok tt
    → assert_child s.session s.runs r r.parent_run_id ≡ ok tt
unfolding assert_run
run-child s r h =
    let (a, e1, h1) = >>=-eq-ok (assert_not_before (some r.started_at) s.session.created_at) _ h in
    let (b, e2, h2) = >>=-eq-ok (assert_not_after (some r.started_at) s.captured_at) _ h1 in
    let (c, e3, h3) = >>=-eq-ok (assert_not_before (run_ended_at r) r.started_at) _ h2 in
    let (d, e4, h4) = >>=-eq-ok (assert_not_after (run_ended_at r) s.captured_at) _ h3 in
    let (e5, h5) =
      guard-eq-ok (not (is_user r.origin) || not (is_empty r.input)) invalid_transition _ h4 in
    let (e6, h6) =
      guard-eq-ok (not (is_agent r.origin) || advertises s.session "run.agent_initiated")
        unsupported _ h5 in
    let (i, e7, h7) = >>=-eq-ok (assert_child s.session s.runs r r.parent_run_id) _ h6 in e7

-- a child's parent is a run of the snapshot, and it is active while the child is
pub child-parent :
    (s : SessionSnapshot) (r : Run) (parent : String)
    → assert_child s.session s.runs r (some parent) ≡ ok tt
    → (p : Run) × (run_by_id s.runs parent ≡ some p)
      × (is_active (run_status r) ≡ true → is_active (run_status p) ≡ true)
unfolding assert_child
child-parent s r parent h =
    let (e1, h1) = guard-eq-ok (advertises s.session "run.child") unsupported _ h in
    let (p, e2, h2) = >>=-eq-ok (require (run_by_id s.runs parent) invalid_reference) _ h1 in
    let (c, e3, h3) = >>=-eq-ok (assert_not_before (some r.started_at) p.started_at) _ h2 in
    let (e4, h4) =
      guard-eq-ok (not (is_active (run_status r)) || is_active (run_status p)) invalid_transition _
        h3 in
    (p, require-eq-ok (run_by_id s.runs parent) invalid_reference e2, λ active. ground arith)

pub item-run :
    (s : SessionSnapshot) (i : Item)
    → assert_item s i ≡ ok tt
    → (r : Run) × (run_by_id s.runs i.run_id ≡ some r)
      × (is_active i.status ≡ true → is_active (run_status r) ≡ true)
unfolding assert_item
item-run s i h =
    let (a, e1, h1) = >>=-eq-ok (assert_not_before (some i.updated_at) i.created_at) _ h in
    let (b, e2, h2) = >>=-eq-ok (assert_not_before i.ended_at i.created_at) _ h1 in
    let (c, e3, h3) = >>=-eq-ok (assert_not_after (some i.created_at) s.captured_at) _ h2 in
    let (d, e4, h4) = >>=-eq-ok (assert_not_after (some i.updated_at) s.captured_at) _ h3 in
    let (e, e5, h5) = >>=-eq-ok (assert_not_after i.ended_at s.captured_at) _ h4 in
    let (r, e6, h6) = >>=-eq-ok (require (run_by_id s.runs i.run_id) invalid_reference) _ h5 in
    let (f, e7, h7) = >>=-eq-ok (assert_not_before (some i.created_at) r.started_at) _ h6 in
    let (e8, h8) =
      guard-eq-ok (not (is_active i.status) || is_active (run_status r)) invalid_transition _ h7 in
    (r, require-eq-ok (run_by_id s.runs i.run_id) invalid_reference e6, λ active. ground arith)
