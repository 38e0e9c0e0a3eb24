-- ===== src/Contract/Command/Admitted.antt =====
-- What a command that `validateCommand` (src/contract/command-validation.ts) admits went through.
use mosoo_agent_driver.Base.{
  String, ◌≡◌, subst, Bool, true, false, not, Option, some, str_eq, str_eq→eq, Json, ok, guard,
  require, ◌>>=◌, arith, >>=-eq-ok, guard-eq-ok, require-eq-ok,
}
use mosoo_agent_driver.Contract.Canonical.{canonical_snapshot}
use mosoo_agent_driver.Contract.Common.{
  session_mismatch, stale_revision, invalid_transition, invalid_reference, schema_error, Timestamp,
  compare_timestamps, is_earlier,
}
use mosoo_agent_driver.Contract.State.{Run, run_status, is_active}
use mosoo_agent_driver.Contract.Snapshot.{SessionSnapshot}
use mosoo_agent_driver.Contract.RunGraph.{run_by_id}
use mosoo_agent_driver.Contract.Checks.{assert_content_capabilities, is_closed}
use mosoo_agent_driver.Contract.Validate.{validate_state, validate_session_snapshot}
use mosoo_agent_driver.Contract.Reducer.Activity.{validated}
use mosoo_agent_driver.Contract.Command.{
  Command, CommandBody, session_close, run_cancel, run_start, run_steer, session_configure,
  interaction_resolve, command_schema, command_content, assert_command, is_expected,
  validate_command, canonical_command,
}

-- the checks on the parsed command, each of which passed
pub record Checked (while_running : Json → Bool) (s : SessionSnapshot) (c : Command)
    (now : Timestamp) : Type 0 where
  pub valid : validate_state s ≡ ok tt
  pub schema : command_schema c ≡ true
  pub same_session : c.session_id ≡ s.session.id
  pub expected : is_expected c.expected_revision s.revision ≡ true
  pub not_before : is_earlier (compare_timestamps now s.captured_at) ≡ false
  pub asked : assert_command while_running s now c c.body ≡ ok tt

pub validate_command-Checked :
    (while_running : Json → Bool) (s : SessionSnapshot) (c result : Command) (now : Timestamp)
    → validate_command while_running s c now ≡ ok result
    → Checked while_running (canonical_snapshot s) result now
unfolding validate_command
validate_command-Checked while_running given value result now h =
    let s = canonical_snapshot given in
    let c = canonical_command value in
    let (v, e, h1) = >>=-eq-ok (validate_session_snapshot given) _ h in
    let (same_s, valid) = validated given v e in
    let (schema, h2) = guard-eq-ok (command_schema c) schema_error _ h1 in
    let (e3, h3) = guard-eq-ok (str_eq c.session_id v.session.id) session_mismatch _ h2 in
    let (e4, h4) = guard-eq-ok (is_expected c.expected_revision v.revision) stale_revision _ h3 in
    let (e5, h5) =
      guard-eq-ok (not (is_earlier (compare_timestamps now v.captured_at))) invalid_transition _
        h4 in
    let (e6, e7, h7) =
      >>=-eq-ok (assert_content_capabilities v.session (command_content c.body)) _ h5 in
    let (e8, e9, h9) = >>=-eq-ok (assert_command while_running v now c c.body) _ h7 in
    let parsed : c ≡ result = cc in
    subst (λ x. Checked while_running s x now) parsed
      (record {
        valid = valid;
        schema = schema;
        same_session =
            subst (λ x. c.session_id ≡ x.session.id) same_s
              (str_eq→eq c.session_id v.session.id e3);
        expected = subst (λ x. is_expected c.expected_revision x.revision ≡ true) same_s e4;
        not_before =
            subst (λ x. is_earlier (compare_timestamps now x.captured_at) ≡ false) same_s ground
              arith;
        asked = subst (λ x. assert_command while_running x now c c.body ≡ ok tt) same_s e9;
      })

-- a command for a closed session
pub data ForClosed (s : SessionSnapshot) : CommandBody → Type 0 where
  closes : (reason : Option String) → ForClosed s (session_close reason)
  cancels :
      (id : String) (reason : Option String) (run : Run)
      → run_by_id s.runs id ≡ some run
      → is_active (run_status run) ≡ false
      → ForClosed s (run_cancel id reason)

for_closed :
    (while_running : Json → Bool) (s : SessionSnapshot) (now : Timestamp) (c : Command)
    (body : CommandBody)
    → is_closed s.session.status ≡ true
    → assert_command while_running s now c body ≡ ok tt
    → ForClosed s body
unfolding assert_command
for_closed while_running s now c (session_close reason) shut h = closes reason
for_closed while_running s now c (run_cancel id reason) shut h =
    let ended : (require (run_by_id s.runs id) invalid_reference >>= λ run.
    guard (not (is_active (run_status run))) invalid_transition)
        ≡ ok tt =
      cc (h, shut) in
    let (run, found, h1) = >>=-eq-ok (require (run_by_id s.runs id) invalid_reference) _ ended in
    cancels id reason run (require-eq-ok (run_by_id s.runs id) invalid_reference found) ground arith
for_closed while_running s now c (run_start id b p r) shut h = ground arith
for_closed while_running s now c (run_steer id b) shut h = ground arith
for_closed while_running s now c (session_configure changes) shut h = ground arith
for_closed while_running s now c (interaction_resolve id r) shut h = ground arith

-- When the session of the snapshot is closed, `validateCommand` admits nothing but another close and
-- the cancellation of a run that is there and has ended. The run is looked for as the parse returns
-- the command and the snapshot, with their identities in canonical form.
pub closed_session_commands :
    (while_running : Json → Bool) (s : SessionSnapshot) (c result : Command) (now : Timestamp)
    → is_closed s.session.status ≡ true
    → validate_command while_running s c now ≡ ok result
    → ForClosed (canonical_snapshot s) result.body
closed_session_commands while_running s c result now shut h =
    for_closed while_running (canonical_snapshot s) now result result.body
      (unfold canonical_snapshot in shut)
      (validate_command-Checked while_running s c result now h).asked
