-- ===== src/Contract/Reducer/Lifecycle.antt =====
-- What no mutation takes back (src/contract/reducer.ts with src/contract/state-validation.ts): a run
-- that has ended, an interaction that has ended, and a closed session.
use mosoo_agent_driver.Base.{
  ◌≡◌, refl, sym, ap, ◌∙◌, subst, inl, inr, String, Bool, true, false, not, Option, none, some,
  List, [], ◌∷◌, find, filter, str_eq, str_eq→eq, if◌then◌else◌, Bool-cases, ok, arith, >>=-eq-ok,
}
use mosoo_agent_driver.Contract.State.{Session, Run, run_status, Status}
use mosoo_agent_driver.Contract.Interaction.{Interaction, is_open}
use mosoo_agent_driver.Contract.Transition.{
  includes, status_transition, interaction_status_transition, session_status_transition,
  assert_run_transition, assert_session_transition,
}
use mosoo_agent_driver.Contract.Put
use mosoo_agent_driver.Contract.Put.{put_at, assert_interaction_transition}
use mosoo_agent_driver.Contract.RunGraph.{run_by_id}
use mosoo_agent_driver.Contract.Checks.{is_terminal_run}

-- entries with a text as their key
module _ {ℓ} {A : Type ℓ} (key : A → String) where
  abbrev keyed : String → A → Bool
  keyed id x = str_eq (key x) id

  find-put_at_other :
      (k id : String) (next : A) (xs : List A)
      → key next ≡ k
      → str_eq k id ≡ false
      → find (keyed id) (put_at (keyed k) next xs) ≡ find (keyed id) xs
  find-put_at_other k id next [] same_key other = ground arith
  find-put_at_other k id next (x ∷ xs) same_key other = elim (Bool-cases (str_eq (key x) k)) [
    | inl hit ↦
        let moved : str_eq (key x) id ≡ false =
          subst (λ c. str_eq c id ≡ false) (sym (str_eq→eq _ _ hit)) other in
        ground arith
    | inr miss ↦ ground (arith, find-put_at_other k id next xs same_key other)
  ]

  -- a removal by key removes all the entries of a key or none
  pub find-filter_keys :
      (removed : List String) (id : String) (xs : List A)
      → find (keyed id) (filter (λ x. not (includes removed (key x))) xs)
        ≡ (if includes removed id then none else find (keyed id) xs)
  find-filter_keys removed id [] = ground arith
  find-filter_keys removed id (x ∷ xs) =
      let rest = find-filter_keys removed id xs in
      elim (Bool-cases (str_eq (key x) id)) [
        | inl hit ↦ let same_key = ap (includes removed) (str_eq→eq _ _ hit) in ground arith
        | inr miss ↦ ground arith
      ]

-- `interactions.find((candidate) => candidate.id === id)`
abbrev pub interaction_by_id : List Interaction → String → Option Interaction
interaction_by_id is id = find (λ (i : Interaction). str_eq i.id id) is

-- the last check of each transition, whatever the others say
run_transition-active :
    (previous next : Run) (u : Unit {0})
    → assert_run_transition (some previous) next ≡ ok u
    → status_transition (run_status previous) (run_status next) ≡ true
unfolding assert_run_transition
run_transition-active previous next u h =
    elim (Bool-cases (status_transition (run_status previous) (run_status next))) [
      | inl passed ↦ passed
      | inr refused ↦ ground arith
    ]

interaction_transition-open :
    (previous next : Interaction) (u : Unit {0})
    → assert_interaction_transition (some previous) next ≡ ok u
    → interaction_status_transition previous.status next.status ≡ true
unfolding assert_interaction_transition
interaction_transition-open previous next u h =
    let (v, a, h1) = >>=-eq-ok (Put.assert_interaction_content next) _ h in
    elim (Bool-cases (interaction_status_transition previous.status next.status)) [
      | inl passed ↦ passed
      | inr refused ↦ ground arith
    ]

pub session_transition-open :
    (previous next : Session) (u : Unit {0})
    → assert_session_transition previous next ≡ ok u
    → session_status_transition previous.status next.status ≡ true
unfolding assert_session_transition
session_transition-open previous next u h =
    elim (Bool-cases (session_status_transition previous.status next.status)) [
      | inl passed ↦ passed
      | inr refused ↦ ground arith
    ]

-- what an operation that removes nothing keeps
terminal-no_transition :
    (r : Run) (s : Status) → is_terminal_run r ≡ true → status_transition (run_status r) s ≡ false
unfolding status_transition
terminal-no_transition r s terminal = ground arith

pub put_run-kept :
    (runs runs' : List Run) (next r : Run) (id : String)
    → Put.put_run runs next ≡ ok runs'
    → run_by_id runs id ≡ some r
    → is_terminal_run r ≡ true
    → run_by_id runs' id ≡ some r
unfolding Put.put_run
put_run-kept runs runs' next r id h found terminal =
    let (u, e, k) = >>=-eq-ok (assert_run_transition (find (Put.is_run next.id) runs) next) _ h in
    elim (Bool-cases (str_eq next.id id)) [
      | inl hit ↦
          let previous : find (Put.is_run next.id) runs ≡ some r =
            ap (run_by_id runs) (str_eq→eq _ _ hit) ∙ found in
          let passed =
            run_transition-active r next u
              (ap (λ o. assert_run_transition o next) (sym previous) ∙ e) in
          let refused = terminal-no_transition r (run_status next) terminal in ground arith
      | inr other ↦
          let kept = find-put_at_other (λ (x : Run). x.id) next.id id next runs refl other in
          ground arith
    ]

pub put_interaction-kept :
    (is is' : List Interaction) (next i : Interaction) (id : String)
    → Put.put_interaction is next ≡ ok is'
    → interaction_by_id is id ≡ some i
    → is_open i.status ≡ false
    → interaction_by_id is' id ≡ some i
unfolding Put.put_interaction interaction_status_transition
put_interaction-kept is is' next i id h found ended =
    let (u, e, k) =
      >>=-eq-ok (assert_interaction_transition (find (Put.is_interaction next.id) is) next) _ h in
    elim (Bool-cases (str_eq next.id id)) [
      | inl hit ↦
          let previous : find (Put.is_interaction next.id) is ≡ some i =
            ap (interaction_by_id is) (str_eq→eq _ _ hit) ∙ found in
          let passed =
            interaction_transition-open i next u
              (ap (λ o. assert_interaction_transition o next) (sym previous) ∙ e) in
          ground arith
      | inr other ↦
          let kept = find-put_at_other (λ (x : Interaction). x.id) next.id id next is refl other in
          ground arith
    ]
