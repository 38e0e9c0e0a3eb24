-- ===== src/Contract/Reducer/Activity.antt =====
-- What the activity of `deriveSessionActivity` (src/contract/reducer.ts) says of a snapshot.
use mosoo_agent_driver.Base.{
  ◌≡◌, sym, ap, ◌∙◌, String, false, ◌&&◌, some, All, any, ok, arith, >>=-eq-ok, guard-eq-ok,
}
use mosoo_agent_driver.Contract.Canonical.{canonical_snapshot}
use mosoo_agent_driver.Contract.Common.{schema_error}
use mosoo_agent_driver.Contract.State.{Run, run_status, is_active, Item}
use mosoo_agent_driver.Contract.Interaction.{Interaction, is_open}
use mosoo_agent_driver.Contract.Snapshot.{SessionSnapshot, snapshot_schema}
use mosoo_agent_driver.Contract.RunGraph.{run_by_id}
use mosoo_agent_driver.Contract.Checks.{is_closed, is_active_top_level}
use mosoo_agent_driver.Contract.Validate.{validate_state, validate_session_snapshot}
use mosoo_agent_driver.Contract.Validate.Activity.{no_active_top_level}
use mosoo_agent_driver.Contract.Reducer.{idle, activity_of, derive_session_activity}

pub validated :
    (s v : SessionSnapshot)
    → validate_session_snapshot s ≡ ok v
    → (v ≡ canonical_snapshot s) × (validate_state (canonical_snapshot s) ≡ ok tt)
unfolding validate_session_snapshot
validated given v h =
    let s = canonical_snapshot given in
    let (schema, h1) = guard-eq-ok (snapshot_schema s) schema_error _ h in
    let (u, e, k) = >>=-eq-ok (validate_state s) (λ _. ok s) h1 in (ground arith, e)

idle_activity :
    (s : SessionSnapshot)
    → activity_of s ≡ idle
    → (is_closed s.session.status ≡ false)
      × (any (λ (i : Interaction). is_open i.status && i.blocking) s.interactions ≡ false)
      × (any is_active_top_level s.runs ≡ false)
unfolding activity_of
idle_activity s h = (ground arith, ground arith, ground arith)

-- A snapshot whose activity is idle, with its identities in canonical form as the parse returns it, is
-- that of an open session, no interaction of it blocks, and nothing in it is active, runs of other
-- runs and items included.
pub idle_is_quiet :
    (s : SessionSnapshot)
    → derive_session_activity s ≡ ok idle
    → (is_closed (canonical_snapshot s).session.status ≡ false)
      × (any
            (λ (i : Interaction). is_open i.status && i.blocking)
            (canonical_snapshot s).interactions
          ≡ false)
      × ((id : String) (r : Run)
          → run_by_id (canonical_snapshot s).runs id ≡ some r
          → is_active (run_status r) ≡ false)
      × All (λ (i : Item). is_active i.status ≡ false) (canonical_snapshot s).items
unfolding derive_session_activity
idle_is_quiet s h =
    let (v, e, k) = >>=-eq-ok (validate_session_snapshot s) (λ v. ok (activity_of v)) h in
    let (same_s, valid) = validated s v e in
    let is_idle : activity_of v ≡ idle = ground arith in
    let (opened, unblocked, quiet) =
      idle_activity (canonical_snapshot s) (ap activity_of (sym same_s) ∙ is_idle) in
    let (runs, items) = no_active_top_level (canonical_snapshot s) valid quiet in
    (opened, unblocked, runs, items)
