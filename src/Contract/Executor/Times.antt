-- ===== src/Contract/Executor/Times.antt =====
-- The times in a snapshot that `validateState` admits (src/contract/state-validation.ts).
use mosoo_agent_driver.Base.{◌≡◌, not, ◌||◌, Option, none, some, ok, arith, >>=-eq-ok, guard-eq-ok}
use mosoo_agent_driver.Contract.Common.{
  invalid_transition, unsupported, Timestamp, compare_timestamps, is_later, assert_not_before,
  assert_not_after,
}
use mosoo_agent_driver.Contract.Common.Order.{Before, Before-trans, not_earlier-Before}
use mosoo_agent_driver.Contract.State.{Run, Item}
use mosoo_agent_driver.Contract.Interaction.{Interaction, is_open}
use mosoo_agent_driver.Contract.Snapshot.{SessionSnapshot}
use mosoo_agent_driver.Contract.Put.{assert_interaction_content}
use mosoo_agent_driver.Contract.Checks.{assert_run, advertises}
use mosoo_agent_driver.Contract.Validate.{assert_item, assert_interaction, interaction_capability}

-- No end, or one between the start and the acceptance.
abbrev pub EndsBetween : Timestamp → Option Timestamp → Timestamp → Type 0
EndsBetween start none accepted = Unit
EndsBetween start (some e) accepted = Before start e × Before e accepted

-- what is checked of a time that is there
not_after :
    (t : Timestamp) (upper : Timestamp) (u : Unit {0})
    → assert_not_after (some t) upper ≡ ok u
    → Before t upper
unfolding assert_not_after
not_after t upper u h = ground arith

pub run-started :
    (s : SessionSnapshot) (r : Run) → assert_run s r ≡ ok tt → Before r.started_at s.captured_at
unfolding assert_run
run-started s r h =
    let (a, e1, h1) = >>=-eq-ok (assert_not_before (some r.started_at) s.session.created_at) _ h in
    let (b, e2, h2) = >>=-eq-ok (assert_not_after (some r.started_at) s.captured_at) _ h1 in
    not_after r.started_at s.captured_at b e2

ends_between :
    (start upper : Timestamp) (e : Option Timestamp) (u v : Unit {0})
    → assert_not_before e start ≡ ok u
    → assert_not_after e upper ≡ ok v
    → EndsBetween start e upper
unfolding assert_not_before assert_not_after
ends_between start upper none u v h k = tt
ends_between start upper (some e) u v h k = (not_earlier-Before start e ground arith, ground arith)

pub item-times :
    (s : SessionSnapshot) (i : Item)
    → assert_item s i ≡ ok tt
    → Before i.created_at s.captured_at × EndsBetween i.created_at i.ended_at s.captured_at
unfolding assert_item
item-times s i h =
    let (a, e1, h1) = >>=-eq-ok (assert_not_before (some i.updated_at) i.created_at) _ h in
    let (b, e2, h2) = >>=-eq-ok (assert_not_before i.ended_at i.created_at) _ h1 in
    let (c, e3, h3) = >>=-eq-ok (assert_not_after (some i.created_at) s.captured_at) _ h2 in
    let (d, e4, h4) = >>=-eq-ok (assert_not_after (some i.updated_at) s.captured_at) _ h3 in
    let (e, e5, h5) = >>=-eq-ok (assert_not_after i.ended_at s.captured_at) _ h4 in
    (
      not_after i.created_at s.captured_at c e3,
      ends_between i.created_at s.captured_at i.ended_at b e e2 e5,
    )

pub interaction-created :
    (s : SessionSnapshot) (i : Interaction)
    → assert_interaction s i ≡ ok tt
    → Before i.created_at s.captured_at
unfolding assert_interaction
interaction-created s i h =
    let (a, e1, h1) = >>=-eq-ok (assert_interaction_content i) _ h in
    let (e2, h2) =
      guard-eq-ok (advertises s.session (interaction_capability i.request)) unsupported _ h1 in
    let (e3, h3) =
      guard-eq-ok (is_later (compare_timestamps i.expires_at i.created_at)) invalid_transition _
        h2 in
    let (e4, h4) =
      guard-eq-ok
        (not (is_open i.status) || is_later (compare_timestamps i.expires_at s.captured_at))
        invalid_transition _ h3 in
    let (b, e5, h5) = >>=-eq-ok (assert_not_before i.ended_at i.created_at) _ h4 in
    let (c, e6, h6) = >>=-eq-ok (assert_not_after (some i.created_at) s.captured_at) _ h5 in
    not_after i.created_at s.captured_at c e6

pub ends_later :
    (start middle upper : Timestamp) (e : Option Timestamp)
    → Before middle upper
    → EndsBetween start e middle
    → EndsBetween start e upper
ends_later start middle upper none h v = tt
ends_later start middle upper (some e) h v = (v.0, Before-trans e middle upper v.1 h)
