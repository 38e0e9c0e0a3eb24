-- ===== src/Contract/Command/Resolve.antt =====
-- A resolution that `validateCommand` admits can be written (src/contract/command-validation.ts,
-- src/contract/state-validation.ts).
use mosoo_agent_driver.Base.{
  String, ◌≡◌, refl, sym, subst, Bool, true, false, not, Option, none, some, List, [], ◌∷◌, every,
  find, All-find, filter, str_eq_self, str_eq→eq, is_some, same_self, same_text?, same_bool, Json,
  ok, guard, require, for_each, arith, >>=-eq-ok, guard-eq-ok, require-eq-ok,
}
use mosoo_agent_driver.Contract.Canonical.{canonical_snapshot}
use mosoo_agent_driver.Contract.Common.{
  ContractError, invalid_reference, invalid_transition, Timestamp, Timestamp-discrete,
  compare_timestamps, is_earlier,
}
use mosoo_agent_driver.Contract.State.{Audience-discrete}
use mosoo_agent_driver.Contract.Interaction as interactions
use mosoo_agent_driver.Contract.Interaction.{
  Interaction, InteractionRequest, InteractionRequest-discrete, permission_request, input_request,
  tool_request, extension_request, Resolution, permission_resolution, input_resolution,
  tool_resolution, extension_resolution, resolved, open_interaction, InteractionStatus,
  InputQuestion, is_open, PermissionResolution, selected, permission_cancelled, PermissionRequest,
}
use mosoo_agent_driver.Contract.Snapshot.{SessionSnapshot}
use mosoo_agent_driver.Contract.Transition.{includes, assert_unique, interaction_status_transition}
use mosoo_agent_driver.Contract.Put.{
  is_interaction, option_ids, question_ids, assert_targets, assert_choices, assert_answers,
  assert_interaction_content, same_interaction_identity, assert_interaction_transition, put_at,
  put_interaction,
}
use mosoo_agent_driver.Contract.Checks.{is_closed}
use mosoo_agent_driver.Contract.Validate.{assert_interaction, validate_state, ended_in_time}
use mosoo_agent_driver.Contract.Validate.Admitted.{validate_state-Checked}
use mosoo_agent_driver.Contract.Command.Admitted.{validate_command-Checked}
use mosoo_agent_driver.Contract.Command.{
  InputAnswer, answered, cancelled, InteractionResolution, permission, input, tool, extension,
  interaction_resolve, Command, answer_ids, resolution_schema, command_schema, answer_to,
  assert_answer, assert_input_resolution, assert_resolution, assert_body, assert_command,
  validate_command,
}

-- The resolution as the snapshot keeps it: of the answers, the questions only.
abbrev pub recorded : InteractionResolution → Resolution
recorded (permission p) = permission_resolution p
recorded (input (answered answers)) = input_resolution (interactions.answered (answer_ids answers))
recorded (input cancelled) = input_resolution interactions.input_cancelled
recorded (tool t) = tool_resolution t
recorded (extension name value) = extension_resolution value

abbrev pub resolved_by : Interaction → InteractionResolution → Timestamp → Interaction
resolved_by i r now = record i {
  status = resolved;
  ended_at = some now;
  resolution = some (recorded r);
}

answered_includes :
    (answers : List (String × List String)) (id : String)
    → is_some (answer_to answers id) ≡ true
    → includes (answer_ids answers) id ≡ true
unfolding includes
answered_includes [] id h = cc
answered_includes ((k, values) ∷ rest) id h = let later = answered_includes rest id in ground arith

all_guarded :
    (p : String → Bool) (e : ContractError) (ids : List String) (u : Unit {0})
    → for_each (λ id. guard (p id) e) ids ≡ ok u
    → every p ids ≡ true
all_guarded p e [] u h = refl
all_guarded p e (id ∷ ids) u h =
    let (a, h1) = guard-eq-ok (p id) e _ h in let later = all_guarded p e ids u h1 in ground arith

required_answered :
    (answers : List (String × List String)) (questions : List InputQuestion) (u : Unit {0})
    → for_each (λ (q : InputQuestion). assert_answer q (answer_to answers q.id)) questions ≡ ok u
    → every
        (includes (answer_ids answers))
        (question_ids (filter (λ (q : InputQuestion). q.required) questions))
      ≡ true
required_answered answers [] u h = refl
required_answered answers (q ∷ qs) u h =
    let (v, first, rest) = >>=-eq-ok (assert_answer q (answer_to answers q.id)) _ h in
    let later = required_answered answers qs u rest in
    let present : q.required ≡ true → is_some (answer_to answers q.id) ≡ true =
      λ r. needed (answer_to answers q.id) r first in
    let included = answered_includes answers q.id in ground arith
  where
    needed :
        (o : Option (List String))
        → q.required ≡ true
        → assert_answer q o ≡ ok tt
        → is_some o ≡ true
    needed none r first = ground arith
    needed (some vs) r first = refl

-- the content of the resolved interaction
input_content :
    (questions : List InputQuestion) (answer : InputAnswer)
    → resolution_schema (input answer) ≡ true
    → assert_input_resolution questions answer ≡ ok tt
    → assert_answers questions (some (recorded (input answer))) ≡ ok tt
unfolding assert_input_resolution assert_unique
input_content questions cancelled schema h = refl
input_content questions (answered answers) schema h =
    let (u, known, rest) =
      >>=-eq-ok
        (for_each (λ id. guard (includes (question_ids questions) id) invalid_reference)
          (answer_ids answers))
        _ h in
    let every_known =
      all_guarded (includes (question_ids questions)) invalid_reference (answer_ids answers) u
        known in
    let every_answered = required_answered answers questions tt rest in ground arith

content-resolved :
    (i : Interaction) (r : InteractionResolution) (now : Timestamp)
    → is_open i.status ≡ true
    → resolution_schema r ≡ true
    → assert_interaction_content i ≡ ok tt
    → assert_resolution i.request r ≡ ok tt
    → assert_interaction_content (resolved_by i r now) ≡ ok tt
unfolding assert_interaction_content assert_resolution
content-resolved i r now open' schema content h = by_request i.request r schema content h
  where
    by_request :
        (q : InteractionRequest) (r : InteractionResolution)
        → resolution_schema r ≡ true
        → assert_interaction_content (record i { request = q }) ≡ ok tt
        → assert_resolution q r ≡ ok tt
        → assert_interaction_content (resolved_by (record i { request = q }) r now) ≡ ok tt
    by_request (permission_request p) (permission (selected id)) schema content h =
        let (u, e1, h1) = >>=-eq-ok (assert_unique (option_ids p.options)) _ content in
        let (v, e2, h2) = >>=-eq-ok (assert_targets p.subject) _ h1 in cc (e1, h)
    by_request (permission_request p) (permission permission_cancelled) schema content h =
        let (u, e1, h1) = >>=-eq-ok (assert_unique (option_ids p.options)) _ content in
        let (v, e2, h2) = >>=-eq-ok (assert_targets p.subject) _ h1 in cc e1
    by_request (input_request qs) (input answer) schema content h =
        let (u, e1, h1) = >>=-eq-ok (assert_unique (question_ids qs)) _ content in
        let (v, e2, h2) = >>=-eq-ok (for_each assert_choices qs) _ h1 in
        let e3 = input_content qs answer schema h in cc (e1, e3)
    by_request (tool_request n x) r schema content h = refl
    by_request (extension_request n x) r schema content h = refl
    by_request _ _ schema content h = cc

identity-resolved :
    (i : Interaction) (r : InteractionResolution) (now : Timestamp)
    → same_interaction_identity i (resolved_by i r now) ≡ true
unfolding same_interaction_identity
identity-resolved i r now = cc (
  str_eq_self i.id,
  str_eq_self i.run_id,
  same_item i.item_id,
  same_self Timestamp-discrete i.created_at,
  same_flag i.blocking,
  same_self Audience-discrete i.audience,
  same_self InteractionRequest-discrete i.request,
)
  where
    same_item : (o : Option String) → same_text? o o ≡ true
    same_item none = refl
    same_item (some id) = str_eq_self id

    same_flag : (b : Bool) → same_bool b b ≡ true
    same_flag true = refl
    same_flag false = refl

transition-resolved :
    (i : Interaction) (r : InteractionResolution) (now : Timestamp)
    → is_open i.status ≡ true
    → assert_interaction_content (resolved_by i r now) ≡ ok tt
    → assert_interaction_transition (some i) (resolved_by i r now) ≡ ok tt
unfolding assert_interaction_transition
transition-resolved i r now open' content = cc (
  content,
  identity-resolved i r now,
  same_self Timestamp-discrete i.expires_at,
  opened i.status open',
)
  where
    opened :
        (status : InteractionStatus)
        → is_open status ≡ true
        → interaction_status_transition status resolved ≡ true
    opened open_interaction h = refl
    opened resolved h = cc
    opened interactions.expired h = cc

interaction-content :
    (s : SessionSnapshot) (i : Interaction)
    → assert_interaction s i ≡ ok tt
    → assert_interaction_content i ≡ ok tt
unfolding assert_interaction
interaction-content s i h = let (u, e, h1) = >>=-eq-ok (assert_interaction_content i) _ h in e

found-id :
    (id : String) (is : List Interaction) (i : Interaction)
    → find (is_interaction id) is ≡ some i
    → i.id ≡ id
found-id id [] i h = cc
found-id id (x ∷ xs) i h =
    let own = str_eq→eq x.id id in let later = found-id id xs i in ground arith

-- What a resolution that is admitted at `now` says of the snapshot: the interaction is there, it is
-- open and has not expired, and the interaction with that resolution can be written, in its place.
pub record IsWritable (s : SessionSnapshot) (id : String) (r : InteractionResolution)
    (now : Timestamp) (i : Interaction) : Type 0 where
  pub found : find (is_interaction id) s.interactions ≡ some i
  pub still_open : is_open i.status ≡ true
  pub in_time : ended_in_time (some now) i.expires_at ≡ true
  pub written :
      put_interaction s.interactions (resolved_by i r now)
      ≡ ok (put_at (is_interaction id) (resolved_by i r now) s.interactions)

put_found :
    (is : List Interaction) (i next : Interaction) (id : String)
    → find (is_interaction id) is ≡ some i
    → next.id ≡ id
    → assert_interaction_transition (some i) next ≡ ok tt
    → put_interaction is next ≡ ok (put_at (is_interaction id) next is)
unfolding put_interaction
put_found is i next id found same_id transition =
    subst (λ x. put_interaction is next ≡ ok (put_at (is_interaction x) next is)) same_id
      (cc (subst (λ x. find (is_interaction x) is ≡ some i) (sym same_id) found, transition))

resolution-IsWritable :
    (while_running : Json → Bool) (s : SessionSnapshot) (c : Command) (now : Timestamp)
    (id : String) (r : InteractionResolution)
    → validate_state s ≡ ok tt
    → resolution_schema r ≡ true
    → assert_body while_running s now c (interaction_resolve id r) ≡ ok tt
    → (i : Interaction) × IsWritable s id r now i
unfolding assert_body put_interaction
resolution-IsWritable while_running s c now id r valid schema h =
    let (i, e, h1) =
      >>=-eq-ok (require (find (is_interaction id) s.interactions) invalid_reference) _ h in
    let found = require-eq-ok (find (is_interaction id) s.interactions) invalid_reference e in
    let (open', h2) = guard-eq-ok (is_open i.status) invalid_transition _ h1 in
    let (in_time, h3) =
      guard-eq-ok (is_earlier (compare_timestamps now i.expires_at)) invalid_transition _ h2 in
    let checked =
      All-find (λ j. assert_interaction s j ≡ ok tt) (is_interaction id) s.interactions i
        (validate_state-Checked s valid).interactions found in
    let content = content-resolved i r now open' schema (interaction-content s i checked) h3 in
    let transition = transition-resolved i r now open' content in
    let same_id = found-id id s.interactions i found in
    (
      i,
      record {
        found = found;
        still_open = open';
        in_time = in_time;
        written = put_found s.interactions i (resolved_by i r now) id found same_id transition;
      },
    )

-- When `validateCommand` admits the resolution of an interaction, the interaction is in the snapshot,
-- it is open and has not expired, and the reducer's `putInteraction` accepts it with that resolution,
-- ended at the time of acceptance. The snapshot has passed `validateState`.
-- The command and the snapshot are those that the parse returns, with their identities in canonical
-- form.
pub admitted_resolution_can_be_written :
    (while_running : Json → Bool) (s : SessionSnapshot) (c result : Command) (now : Timestamp)
    (id : String) (r : InteractionResolution)
    → result.body ≡ interaction_resolve id r
    → validate_command while_running s c now ≡ ok result
    → (validate_state (canonical_snapshot s) ≡ ok tt)
      × ((i : Interaction) × IsWritable (canonical_snapshot s) id r now i)
unfolding assert_command command_schema
admitted_resolution_can_be_written while_running given value c now id r resolves h =
    let s = canonical_snapshot given in
    let v = validate_command-Checked while_running given value c now h in
    let body : assert_command while_running s now c (interaction_resolve id r) ≡ ok tt =
      cc (v.asked, resolves) in
    let (open', asked) = guard-eq-ok (not (is_closed s.session.status)) invalid_transition _ body in
    (
      v.valid,
      resolution-IsWritable while_running s c now id r v.valid (cc (v.schema, resolves)) asked,
    )
