-- ===== src/Contract/Put.antt =====
-- The content and the changes of interactions, and the writes of a run, an item and an interaction
-- (src/contract/state-validation.ts).
use mosoo_agent_driver.Base.{
  String, Bool, ◌&&◌, Option, none, some, List, [], ◌∷◌, map, every, find, filter, str_eq, same,
  same_text?, same_bool, if◌then◌else◌, Result, ok, err, guard, ◌>>◌, for_each,
}
use mosoo_agent_driver.Contract.Common.{
  ContractError, immutable_entity, invalid_reference, invalid_transition, Timestamp-discrete,
}
use mosoo_agent_driver.Contract.State.{Run, Item, Audience-discrete}
use mosoo_agent_driver.Contract.Interaction.{
  Interaction, permission_request, input_request, InteractionRequest-discrete, PermissionSubject,
  resource_subject, Resolution, permission_resolution, selected, input_resolution, answered,
  InputQuestion, single_select, multi_select, is_open, is_resolved, PermissionOption,
  QuestionChoice,
}
use mosoo_agent_driver.Contract.Transition.{
  includes, assert_unique, interaction_status_transition, assert_run_transition,
  assert_item_transition,
}

abbrev pub option_ids : List PermissionOption → List String
option_ids os = map (λ (o : PermissionOption). o.id) os

abbrev pub choice_ids : List QuestionChoice → List String
choice_ids os = map (λ (o : QuestionChoice). o.id) os

abbrev pub question_ids : List InputQuestion → List String
question_ids qs = map (λ (q : InputQuestion). q.id) qs

abbrev pub assert_targets : PermissionSubject → Result ContractError (Unit {0})
assert_targets (resource_subject operation targets) = assert_unique targets
assert_targets _ = ok tt

-- A resolved permission selects an advertised option, or is cancelled.
abbrev pub assert_selection :
    List PermissionOption → Option Resolution → Result ContractError (Unit {0})
assert_selection options none = err invalid_transition
assert_selection options (some (permission_resolution (selected id))) =
    guard (includes (option_ids options) id) invalid_reference
assert_selection options (some _) = ok tt

abbrev pub assert_choices : InputQuestion → Result ContractError (Unit {0})
assert_choices q = elim q.question_type [
  | single_select options other ↦ assert_unique (choice_ids options)
  | multi_select options other ↦ assert_unique (choice_ids options)
  | _ ↦ ok tt
]

-- The answers are to questions that were asked, each once, and to all that are required.
abbrev pub assert_answers : List InputQuestion → Option Resolution → Result ContractError (Unit {0})
assert_answers questions (some (input_resolution (answered ids))) = do
  assert_unique ids
  guard (every (includes (question_ids questions)) ids) invalid_reference
  guard (every (includes ids) (question_ids (filter (λ (q : InputQuestion). q.required) questions)))
      invalid_transition
assert_answers questions _ = ok tt

unfoldable pub assert_interaction_content : Interaction → Result ContractError (Unit {0})
assert_interaction_content i = elim i.request [
  | permission_request r ↦ do
    assert_unique (option_ids r.options)
    assert_targets r.subject
    if is_resolved i.status then assert_selection r.options i.resolution else ok tt
  | input_request questions ↦ do
    assert_unique (question_ids questions)
    for_each assert_choices questions
    if is_resolved i.status then assert_answers questions i.resolution else ok tt
  | _ ↦ ok tt
]

unfoldable pub same_interaction_identity : Interaction → Interaction → Bool
same_interaction_identity previous next =
    str_eq previous.id next.id
    && str_eq previous.run_id next.run_id
    && same_text? previous.item_id next.item_id
    && same Timestamp-discrete previous.created_at next.created_at
    && same_bool previous.blocking next.blocking
    && same Audience-discrete previous.audience next.audience
    && same InteractionRequest-discrete previous.request next.request

unfoldable pub assert_interaction_transition :
    Option Interaction → Interaction → Result ContractError (Unit {0})
unfolding same_interaction_identity interaction_status_transition
assert_interaction_transition none next = do
  assert_interaction_content next
  guard (is_open next.status) invalid_transition
assert_interaction_transition (some previous) next = do
  assert_interaction_content next
  guard (same_interaction_identity previous next) immutable_entity
  guard (same Timestamp-discrete next.expires_at previous.expires_at) immutable_entity
  guard (interaction_status_transition previous.status next.status) invalid_transition

-- `list[index] = next` at the first entry that `p` finds, or `list.push(next)`
abbrev pub put_at {ℓ} : {A : Type ℓ} → (A → Bool) → A → List A → List A
put_at p next [] = next ∷ []
put_at p next (x ∷ xs) = if p x then next ∷ xs else x ∷ put_at p next xs

abbrev pub is_run : String → Run → Bool
is_run id run = str_eq run.id id

abbrev pub is_item : String → String → Item → Bool
is_item run_id id i = str_eq i.run_id run_id && str_eq i.id id

abbrev pub is_interaction : String → Interaction → Bool
is_interaction id i = str_eq i.id id

unfoldable pub put_run : List Run → Run → Result ContractError (List Run)
put_run runs next = do
  assert_run_transition (find (is_run next.id) runs) next
  ok (put_at (is_run next.id) next runs)

unfoldable pub put_item : List Item → Item → Result ContractError (List Item)
put_item items next = do
  assert_item_transition (find (is_item next.run_id next.id) items) next
  ok (put_at (is_item next.run_id next.id) next items)

unfoldable pub put_interaction :
    List Interaction → Interaction → Result ContractError (List Interaction)
put_interaction interactions next = do
  assert_interaction_transition (find (is_interaction next.id) interactions) next
  ok (put_at (is_interaction next.id) next interactions)
