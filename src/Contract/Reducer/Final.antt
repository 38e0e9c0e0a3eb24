-- ===== src/Contract/Reducer/Final.antt =====
-- What a whole mutation keeps (`applyMutation` of src/contract/reducer.ts): ended runs, ended
-- interactions and closed sessions.
use mosoo_agent_driver.Base.{
  ◌≡◌, ap, ◌∙◌, ◌⊎◌, inl, inr, String, true, false, not, none, some, List, [], ◌∷◌, any, every,
  filter, if◌then◌else◌, Bool-cases, ok, require, arith, >>=-eq-ok, guard-eq-ok, length,
}
use mosoo_agent_driver.Contract.Common.{invalid_reference, invalid_transition}
use mosoo_agent_driver.Contract.State.{Session, closed_session, Run}
use mosoo_agent_driver.Contract.Interaction.{Interaction, is_open}
use mosoo_agent_driver.Contract.Snapshot.{
  SessionSnapshot, AuthorityOperation, put_session, put_run, put_item, put_interaction, remove_run,
  CommittedMutation,
}
use mosoo_agent_driver.Contract.Transition.{
  includes, assert_session_transition, session_status_transition,
}
use mosoo_agent_driver.Contract.Put
use mosoo_agent_driver.Contract.RunGraph.{run_by_id}
use mosoo_agent_driver.Contract.Checks.{is_terminal_run}
use mosoo_agent_driver.Contract.Reducer.{
  Draft, is_remove, collect_removed, prune, remove_tree, apply_operation, apply_operations,
  draft_of, next_snapshot, assert_applicable, apply_mutation,
}
use mosoo_agent_driver.Contract.Reducer.Apply.{apply_mutation-Applied, repeated, advanced}
use mosoo_agent_driver.Contract.Reducer.Lifecycle.{
  interaction_by_id, find-filter_keys, put_run-kept, put_interaction-kept, session_transition-open,
}

operation-run_kept :
    (o : AuthorityOperation) (d d' : Draft) (id : String) (r : Run)
    → is_remove o ≡ false
    → apply_operation o d ≡ ok d'
    → run_by_id d.runs id ≡ some r
    → is_terminal_run r ≡ true
    → run_by_id d'.runs id ≡ some r
unfolding apply_operation
operation-run_kept (put_session s) d d' id r put h found terminal =
    let (u, e, k) = >>=-eq-ok (assert_session_transition d.session s) _ h in ground arith
operation-run_kept (put_run next) d d' id r put h found terminal =
    let (runs, e, k) = >>=-eq-ok (Put.put_run d.runs next) _ h in
    let kept = put_run-kept d.runs runs next r id e found terminal in ground arith
operation-run_kept (put_item i) d d' id r put h found terminal =
    let (x, e, k) = >>=-eq-ok (Put.put_item d.items i) _ h in ground arith
operation-run_kept (put_interaction i) d d' id r put h found terminal =
    let (x, e, k) = >>=-eq-ok (Put.put_interaction d.interactions i) _ h in ground arith
operation-run_kept (remove_run x reason) d d' id r put h found terminal = cc

operation-interaction_kept :
    (o : AuthorityOperation) (d d' : Draft) (id : String) (i : Interaction)
    → is_remove o ≡ false
    → apply_operation o d ≡ ok d'
    → interaction_by_id d.interactions id ≡ some i
    → is_open i.status ≡ false
    → interaction_by_id d'.interactions id ≡ some i
unfolding apply_operation
operation-interaction_kept (put_session s) d d' id i put h found ended =
    let (u, e, k) = >>=-eq-ok (assert_session_transition d.session s) _ h in ground arith
operation-interaction_kept (put_run next) d d' id i put h found ended =
    let (runs, e, k) = >>=-eq-ok (Put.put_run d.runs next) _ h in ground arith
operation-interaction_kept (put_item x) d d' id i put h found ended =
    let (items, e, k) = >>=-eq-ok (Put.put_item d.items x) _ h in ground arith
operation-interaction_kept (put_interaction next) d d' id i put h found ended =
    let (is, e, k) = >>=-eq-ok (Put.put_interaction d.interactions next) _ h in
    let kept = put_interaction-kept d.interactions is next i id e found ended in ground arith
operation-interaction_kept (remove_run x reason) d d' id i put h found ended = cc

pub prune-frame :
    (removed : List String) (d d' : Draft)
    → prune removed d ≡ ok d'
    → (d'.session ≡ d.session)
      × (d'.runs ≡ filter (λ (r : Run). not (includes removed r.id)) d.runs)
unfolding prune
prune-frame removed d d' h =
    let (terminal, k) =
      guard-eq-ok (every is_terminal_run (filter (λ (r : Run). includes removed r.id) d.runs))
        invalid_transition _ h in
    (ground arith, ground arith)

remove_tree-frame :
    (id : String) (d d' : Draft)
    → remove_tree id d ≡ ok d'
    → (d'.session ≡ d.session)
      × (removed : List String) × (d'.runs
          ≡ filter (λ (r : Run). not (includes removed r.id)) d.runs)
unfolding remove_tree
remove_tree-frame id d d' h =
    let (root, e, k) = >>=-eq-ok (require (run_by_id d.runs id) invalid_reference) _ h in
    let (kept, pruned) =
      prune-frame (collect_removed (length d.runs) d.runs (root.id ∷ [])) d d' k in
    (kept, _, pruned)

operation-session_kept :
    (o : AuthorityOperation) (d d' : Draft)
    → apply_operation o d ≡ ok d'
    → d.session.status ≡ closed_session
    → d'.session ≡ d.session
unfolding apply_operation session_status_transition
operation-session_kept (put_session s) d d' h closed =
    let (u, e, k) = >>=-eq-ok (assert_session_transition d.session s) _ h in
    let passed = session_transition-open d.session s u e in ground arith
operation-session_kept (put_run next) d d' h closed =
    let (runs, e, k) = >>=-eq-ok (Put.put_run d.runs next) _ h in ground arith
operation-session_kept (put_item x) d d' h closed =
    let (items, e, k) = >>=-eq-ok (Put.put_item d.items x) _ h in ground arith
operation-session_kept (put_interaction next) d d' h closed =
    let (is, e, k) = >>=-eq-ok (Put.put_interaction d.interactions next) _ h in ground arith
operation-session_kept (remove_run x reason) d d' h closed = (remove_tree-frame x d d' h).0

-- a list of operations without a removal
operations-run_kept :
    (os : List AuthorityOperation) (d d' : Draft) (id : String) (r : Run)
    → any is_remove os ≡ false
    → apply_operations os d ≡ ok d'
    → run_by_id d.runs id ≡ some r
    → is_terminal_run r ≡ true
    → run_by_id d'.runs id ≡ some r
unfolding apply_operations
operations-run_kept [] d d' id r puts h found terminal = ground arith
operations-run_kept (o ∷ os) d d' id r puts h found terminal =
    let (x, e, k) = >>=-eq-ok (apply_operation o d) _ h in
    let kept = operation-run_kept o d x id r (ground arith) e found terminal in
    operations-run_kept os x d' id r (ground arith) k kept terminal

operations-interaction_kept :
    (os : List AuthorityOperation) (d d' : Draft) (id : String) (i : Interaction)
    → any is_remove os ≡ false
    → apply_operations os d ≡ ok d'
    → interaction_by_id d.interactions id ≡ some i
    → is_open i.status ≡ false
    → interaction_by_id d'.interactions id ≡ some i
unfolding apply_operations
operations-interaction_kept [] d d' id i puts h found ended = ground arith
operations-interaction_kept (o ∷ os) d d' id i puts h found ended =
    let (x, e, k) = >>=-eq-ok (apply_operation o d) _ h in
    let kept = operation-interaction_kept o d x id i (ground arith) e found ended in
    operations-interaction_kept os x d' id i (ground arith) k kept ended

operations-session_kept :
    (os : List AuthorityOperation) (d d' : Draft)
    → apply_operations os d ≡ ok d'
    → d.session.status ≡ closed_session
    → d'.session ≡ d.session
unfolding apply_operations
operations-session_kept [] d d' h closed = ground arith
operations-session_kept (o ∷ os) d d' h closed =
    let (x, e, k) = >>=-eq-ok (apply_operation o d) _ h in
    let kept = operation-session_kept o d x e closed in
    operations-session_kept os x d' k (ap Session.status kept ∙ closed) ∙ kept

removal-run :
    (x : String) (d d' : Draft) (id : String) (r : Run)
    → remove_tree x d ≡ ok d'
    → (run_by_id d.runs id ≡ some r) ⊎ (run_by_id d.runs id ≡ none)
    → (run_by_id d'.runs id ≡ some r) ⊎ (run_by_id d'.runs id ≡ none)
removal-run x d d' id r h found =
    let (kept, removed, pruned) = remove_tree-frame x d d' h in
    let left =
      ap (λ rs. run_by_id rs id) pruned ∙ find-filter_keys (λ (r : Run). r.id) removed id d.runs in
    elim (Bool-cases (includes removed id)) [
      | inl gone ↦ inr (left ∙ ap (λ b. if b then none else run_by_id d.runs id) gone)
      | inr stays ↦
          let same_run = left ∙ ap (λ b. if b then none else run_by_id d.runs id) stays in
          elim found [ inl there ↦ inl (same_run ∙ there) | inr absent ↦ inr (same_run ∙ absent) ]
    ]

-- a list of removals: a run stays as it was or is gone
removals-run :
    (os : List AuthorityOperation) (d d' : Draft) (id : String) (r : Run)
    → every is_remove os ≡ true
    → apply_operations os d ≡ ok d'
    → (run_by_id d.runs id ≡ some r) ⊎ (run_by_id d.runs id ≡ none)
    → (run_by_id d'.runs id ≡ some r) ⊎ (run_by_id d'.runs id ≡ none)
unfolding apply_operations apply_operation
removals-run [] d d' id r removals h found = ground arith
removals-run (remove_run x reason ∷ os) d d' id r removals h found =
    let (d1, e, k) = >>=-eq-ok (remove_tree x d) _ h in
    removals-run os d1 d' id r removals k (removal-run x d d1 id r e found)
removals-run (put_run x ∷ os) d d' id r removals h found = cc
removals-run (put_session x ∷ os) d d' id r removals h found = cc
removals-run (put_item x ∷ os) d d' id r removals h found = cc
removals-run (put_interaction x ∷ os) d d' id r removals h found = cc

-- the two kinds of mutation
one_kind :
    (current : SessionSnapshot) (m : CommittedMutation) (u : Unit {0})
    → assert_applicable current m ≡ ok u
    → (any is_remove m.operations ≡ false) ⊎ (every is_remove m.operations ≡ true)
unfolding assert_applicable
one_kind current m u h = ground arith

-- A run that has ended stays as it is under each mutation that `applyMutation` accepts, or is
-- removed, by a mutation that removes.
pub terminal_run_final :
    (current : SessionSnapshot) (m : CommittedMutation) (next : SessionSnapshot) (id : String)
    (r : Run)
    → apply_mutation current m ≡ ok next
    → run_by_id current.runs id ≡ some r
    → is_terminal_run r ≡ true
    → (run_by_id next.runs id ≡ some r)
      ⊎ (every is_remove m.operations ≡ true) × (run_by_id next.runs id ≡ none)
unfolding next_snapshot draft_of
terminal_run_final current m next id r h found terminal =
    elim (apply_mutation-Applied current m next h).1 [
      | repeated old same_next ↦ inl (ap (λ s. run_by_id s.runs id) same_next ∙ found)
      | advanced d fresh applicable operations valid same_next ↦
          let same_runs = ap (λ s. run_by_id s.runs id) same_next in
          elim (one_kind current m _ applicable) [
            | inl puts ↦ inl (
                same_runs
                ∙ operations-run_kept m.operations (draft_of current) d id r puts operations found
                    terminal)
            | inr removes ↦
                elim (removals-run m.operations (draft_of current) d id r removes operations
                  (inl found)) [
                    | inl there ↦ inl (same_runs ∙ there)
                    | inr gone ↦ inr (removes, same_runs ∙ gone)
                  ]
          ]
    ]

-- An interaction that has ended, its answer included, stays as it is under each accepted mutation
-- that removes no run.
pub ended_interaction_final :
    (current : SessionSnapshot) (m : CommittedMutation) (next : SessionSnapshot) (id : String)
    (i : Interaction)
    → apply_mutation current m ≡ ok next
    → any is_remove m.operations ≡ false
    → interaction_by_id current.interactions id ≡ some i
    → is_open i.status ≡ false
    → interaction_by_id next.interactions id ≡ some i
unfolding next_snapshot draft_of
ended_interaction_final current m next id i h puts found ended =
    elim (apply_mutation-Applied current m next h).1 [
      | repeated old same_next ↦ ap (λ s. interaction_by_id s.interactions id) same_next ∙ found
      | advanced d fresh applicable operations valid same_next ↦
          ap (λ s. interaction_by_id s.interactions id) same_next
          ∙ operations-interaction_kept m.operations (draft_of current) d id i puts operations found
              ended
    ]

-- No accepted mutation changes anything of a closed session: it is not reopened, and its title, its
-- configuration and its capabilities stay.
pub closed_session_final :
    (current : SessionSnapshot) (m : CommittedMutation) (next : SessionSnapshot)
    → apply_mutation current m ≡ ok next
    → current.session.status ≡ closed_session
    → next.session ≡ current.session
unfolding next_snapshot draft_of
closed_session_final current m next h closed = elim (apply_mutation-Applied current m next h).1 [
  | repeated old same_next ↦ ap SessionSnapshot.session same_next
  | advanced d fresh applicable operations valid same_next ↦
      ap SessionSnapshot.session same_next
      ∙ operations-session_kept m.operations (draft_of current) d operations closed
]
