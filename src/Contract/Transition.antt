-- ===== src/Contract/Transition.antt =====
-- Which changes of a session, a run, an item and an interaction are admitted
-- (src/contract/state-validation.ts and the tables of src/contract/invariant.ts).
use mosoo_agent_driver.Base.{
  ℕ, String, Bool, true, false, not, ◌&&◌, Option, none, some, List, [], ◌∷◌, leb, any, str_eq,
  same, same_text?, or_else, if◌then◌else◌, Result, ok, guard, ◌>>◌,
}
use mosoo_agent_driver.Contract.Common.{
  ContractError, duplicate_entity, immutable_entity, invalid_transition, Timestamp,
  Timestamp-discrete, assert_not_before, ProtocolError, ProtocolError-discrete,
}
use mosoo_agent_driver.Contract.Content.{ContentBlock, ContentBlock-discrete}
use mosoo_agent_driver.Contract.State.{
  Session, SessionStatus, open_session, closed_session, SessionParent, SessionParent-discrete, Cost,
  TokenUsage, Origin-discrete, Run, run_status, Status, active, completed, failed, cancelled,
  Status-discrete, is_active, Item, ItemBody, message, tool, item_extension, body_kind,
  ItemKind-discrete, Role-discrete, Audience-discrete, Item-discrete,
}
use mosoo_agent_driver.Contract.Interaction.{InteractionStatus, open_interaction, resolved, expired}

-- `values.includes(value)`
unfoldable pub includes : List String → String → Bool
includes values value = any (str_eq value) values

unfoldable pub distinct : List String → Bool
unfolding includes
distinct [] = true
distinct (x ∷ xs) = not (includes xs x) && distinct xs

-- `new Set(values).size === values.length`
unfoldable pub assert_unique : List String → Result ContractError (Unit {0})
unfolding distinct
assert_unique values = guard (distinct values) duplicate_entity

abbrev pub same_status : Status → Status → Bool
same_status = same Status-discrete

unfoldable pub session_status_transition : SessionStatus → SessionStatus → Bool
session_status_transition open_session _ = true
session_status_transition closed_session _ = false

-- the one table of runs and items
unfoldable pub status_transition : Status → Status → Bool
status_transition active _ = true
status_transition completed _ = false
status_transition failed _ = false
status_transition cancelled _ = false

unfoldable pub interaction_status_transition : InteractionStatus → InteractionStatus → Bool
interaction_status_transition open_interaction _ = true
interaction_status_transition resolved _ = false
interaction_status_transition expired _ = false

-- `record[name]`
unfoldable pub entry : List (String × String) → String → Option String
entry [] name = none
entry ((k, v) ∷ rest) name = if str_eq k name then some v else entry rest name

-- every entry of `previous` is, unchanged, one of `next`
entries_kept : List (String × String) → List (String × String) → Bool
unfolding entry
entries_kept [] next = true
entries_kept ((k, v) ∷ rest) next = same_text? (some v) (entry next k) && entries_kept rest next

abbrev same_parent : Option SessionParent → Option SessionParent → Bool
same_parent none none = true
same_parent (some a) (some b) = same SessionParent-discrete a b
same_parent _ _ = false

unfoldable pub assert_session_transition : Session → Session → Result ContractError (Unit {0})
unfolding entries_kept session_status_transition
assert_session_transition previous next = do
  guard (str_eq previous.id next.id) immutable_entity
  guard
      (same Timestamp-discrete previous.created_at next.created_at
        && same_parent previous.parent next.parent)
      immutable_entity
  assert_not_before (some next.updated_at) previous.updated_at
  guard (entries_kept previous.capabilities next.capabilities) immutable_entity
  guard (session_status_transition previous.status next.status) invalid_transition

-- `prior === undefined || (now !== undefined && now >= prior)`
abbrev pub keeps_count : Option ℕ → Option ℕ → Bool
keeps_count none now = true
keeps_count (some prior) none = false
keeps_count (some prior) (some now) = leb prior now

abbrev pub keeps_cost : Option Cost → Option Cost → Bool
keeps_cost none now = true
keeps_cost (some prior) none = false
keeps_cost (some prior) (some now) =
    str_eq now.currency prior.currency && leb prior.amount now.amount

-- a count of an absent usage is absent
abbrev pub count_of {ℓ} : {A : Type ℓ} → (TokenUsage → Option A) → Option TokenUsage → Option A
count_of field none = none
count_of field (some u) = field u

unfoldable pub keeps_usage : Option TokenUsage → Option TokenUsage → Bool
keeps_usage a b =
    keeps_count (count_of (λ u. u.cached_input) a) (count_of (λ u. u.cached_input) b)
    && keeps_count (count_of (λ u. u.cached_write) a) (count_of (λ u. u.cached_write) b)
    && keeps_count (count_of (λ u. u.input) a) (count_of (λ u. u.input) b)
    && keeps_count (count_of (λ u. u.output) a) (count_of (λ u. u.output) b)
    && keeps_count (count_of (λ u. u.reasoning) a) (count_of (λ u. u.reasoning) b)
    && keeps_count (count_of (λ u. u.total) a) (count_of (λ u. u.total) b)

pub ContentBlocks-discrete : Discrete (List ContentBlock)
ContentBlocks-discrete = hlevel ContentBlock-discrete

unfoldable pub same_run_origin : Run → Run → Bool
same_run_origin previous next =
    same Timestamp-discrete previous.started_at next.started_at
    && same Origin-discrete previous.origin next.origin
    && same_text? previous.parent_run_id next.parent_run_id
    && same_text? previous.retry_of next.retry_of
    && same ContentBlocks-discrete previous.input next.input

unfoldable pub assert_run_transition : Option Run → Run → Result ContractError (Unit {0})
unfolding same_run_origin keeps_usage status_transition
assert_run_transition none next = guard (is_active (run_status next)) invalid_transition
assert_run_transition (some previous) next = do
  guard (str_eq previous.id next.id) immutable_entity
  guard (same_run_origin previous next) immutable_entity
  guard (keeps_usage previous.usage next.usage) invalid_transition
  guard (keeps_cost (count_of (λ u. u.cost) previous.usage) (count_of (λ u. u.cost) next.usage))
      invalid_transition
  guard (status_transition (run_status previous) (run_status next)) invalid_transition

-- what an item's variant may not change
abbrev same_identity : ItemBody → ItemBody → Bool
same_identity (message r p c) (message r' p' c') = same Role-discrete r r'
same_identity (tool t) (tool t') = str_eq t.origin t'.origin
same_identity (item_extension n v) (item_extension n' v') = str_eq n n'
same_identity a b = same ItemKind-discrete (body_kind a) (body_kind b)

unfoldable pub same_item_identity : Item → Item → Bool
same_item_identity previous next =
    str_eq previous.id next.id
    && str_eq previous.run_id next.run_id
    && same ItemKind-discrete (body_kind previous.body) (body_kind next.body)
    && same Timestamp-discrete previous.created_at next.created_at
    && same Audience-discrete previous.audience next.audience
    && same_identity previous.body next.body

pub EndedAt-discrete : Discrete (Option Timestamp)
EndedAt-discrete = hlevel Timestamp-discrete

pub Error-discrete : Discrete (Option ProtocolError)
Error-discrete = hlevel ProtocolError-discrete

-- an item without its provenance and with another's time of update: what is left is compared
abbrev pub content_beside : Item → Item → Item
content_beside other i = record i { provenance = none; updated_at = other.updated_at }

-- `assertItemTransition` of a terminal item
assert_enriched : Item → Item → Result ContractError (Unit {0})
assert_enriched previous next = do
  guard (same_status next.status previous.status) invalid_transition
  guard
      (same EndedAt-discrete previous.ended_at next.ended_at
        && same Error-discrete previous.error next.error)
      immutable_entity
  assert_not_before (some next.updated_at) (or_else previous.ended_at previous.updated_at)
  guard (not (same Item-discrete (content_beside previous previous) (content_beside previous next)))
      invalid_transition

abbrev assert_end : Item → Result ContractError (Unit {0})
assert_end next =
    if is_active next.status then ok tt else assert_not_before next.ended_at next.updated_at

unfoldable pub assert_item_transition : Option Item → Item → Result ContractError (Unit {0})
unfolding same_item_identity assert_enriched status_transition
assert_item_transition none next = assert_end next
assert_item_transition (some previous) next = do
  guard (same_item_identity previous next) immutable_entity
  assert_not_before (some next.updated_at) previous.updated_at
  if not (is_active previous.status) then assert_enriched previous next else do
    guard (status_transition previous.status next.status) invalid_transition
    assert_end next
