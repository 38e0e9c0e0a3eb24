-- ===== src/Contract/Command/Start.antt =====
-- A start of a run that `validateCommand` admits (src/contract/command-validation.ts) fits into the
-- snapshot (src/contract/state-validation.ts).
use mosoo_agent_driver.Base.{
  ◌+◌, String, ◌≡◌, refl, ap, subst, Bool, true, false, not, ◌||◌, Option, none, some, List, [],
  ◌∷◌, ◌++◌, any, find, filter, length, str_eq, if◌then◌else◌, Json, ok, require, arith, >>=-eq-ok,
  guard-eq-ok, require-eq-ok, differs_comm,
}
use mosoo_agent_driver.Contract.Canonical.{canonical_snapshot}
use mosoo_agent_driver.Contract.Common.{
  invalid_reference, invalid_transition, unsupported, Timestamp,
}
use mosoo_agent_driver.Contract.Content.{ContentBlock}
use mosoo_agent_driver.Contract.State.{Run, run_status, is_active}
use mosoo_agent_driver.Contract.Snapshot.{SessionSnapshot}
use mosoo_agent_driver.Contract.Transition.{
  includes, distinct, assert_unique, assert_run_transition,
}
use mosoo_agent_driver.Contract.Put.{is_run, put_at, put_run}
use mosoo_agent_driver.Contract.RunGraph.{run_by_id}
use mosoo_agent_driver.Contract.Checks.{
  run_ids, is_active_top_level, assert_one_active, is_closed, advertises,
}
use mosoo_agent_driver.Contract.Validate.{validate_state}
use mosoo_agent_driver.Contract.Validate.Admitted.{validate_state-Checked}
use mosoo_agent_driver.Contract.Command.Admitted.{validate_command-Checked}
use mosoo_agent_driver.Contract.Command.{
  Command, run_start, assert_parent, assert_retry, assert_body, assert_command, validate_command,
}

any-append :
    (xs : List String) (x id : String)
    → any (str_eq x) (xs ++ (id ∷ [])) ≡ any (str_eq x) xs || str_eq x id
any-append [] x id = ground arith
any-append (y ∷ ys) x id = let later = any-append ys x id in ground arith

module _ (run : Run) where
  absent_found :
      (runs : List Run) → includes (run_ids runs) run.id ≡ false → find (is_run run.id) runs ≡ none
  unfolding includes
  absent_found [] h = refl
  absent_found (r ∷ rs) h =
      let other = differs_comm run.id r.id in let later = absent_found rs in ground arith

  absent_put :
      (runs : List Run)
      → includes (run_ids runs) run.id ≡ false
      → put_at (is_run run.id) run runs ≡ runs ++ (run ∷ [])
  unfolding includes
  absent_put [] h = refl
  absent_put (r ∷ rs) h =
      let other = differs_comm run.id r.id in let later = absent_put rs in ground arith

  distinct-append :
      (ids : List String) (id : String)
      → distinct ids ≡ true
      → includes ids id ≡ false
      → distinct (ids ++ (id ∷ [])) ≡ true
  unfolding distinct includes
  distinct-append [] id h new = refl
  distinct-append (x ∷ xs) id h new =
      let other = differs_comm id x in
      let later = distinct-append xs id in let same = any-append xs x id in ground arith

  ids-append : (runs : List Run) → run_ids (runs ++ (run ∷ [])) ≡ run_ids runs ++ (run.id ∷ [])
  ids-append [] = refl
  ids-append (r ∷ rs) = ap (λ x. r.id ∷ x) (ids-append rs)

  top_level-append :
      (runs : List Run)
      → length (filter is_active_top_level (runs ++ (run ∷ [])))
        ≡ length (filter is_active_top_level runs) + (if is_active_top_level run then 1 else 0)
  top_level-append [] = ground arith
  top_level-append (r ∷ rs) = let later = top_level-append rs in ground arith

  none_top_level :
      (runs : List Run)
      → any is_active_top_level runs ≡ false
      → length (filter is_active_top_level runs) ≡ 0
  none_top_level [] h = refl
  none_top_level (r ∷ rs) h = let later = none_top_level rs in ground arith

-- What an admitted start says of the snapshot and of the run that it starts: the run can be put, at
-- the end; the identities stay distinct and at most one run without a parent is active; a parent is an
-- active run, and a run that is retried has ended.
pub record Fits (s : SessionSnapshot) (run : Run) : Type 0 where
  pub put : put_run s.runs run ≡ ok (s.runs ++ (run ∷ []))
  pub unique : assert_unique (run_ids (s.runs ++ (run ∷ []))) ≡ ok tt
  pub one_active : assert_one_active (s.runs ++ (run ∷ [])) ≡ ok tt
  pub parent_active :
      (id : String)
      → run.parent_run_id ≡ some id
      → (p : Run) × (run_by_id s.runs id ≡ some p) × (is_active (run_status p) ≡ true)
  pub retried_ended :
      (id : String)
      → run.retry_of ≡ some id
      → (p : Run) × (run_by_id s.runs id ≡ some p) × (is_active (run_status p) ≡ false)

still_one_active :
    (s : SessionSnapshot) (run : Run)
    → assert_one_active s.runs ≡ ok tt
    → assert_parent s run.parent_run_id ≡ ok tt
    → assert_one_active (s.runs ++ (run ∷ [])) ≡ ok tt
unfolding assert_one_active
still_one_active s run one h = by_parent run.parent_run_id refl h
  where
    by_parent :
        (o : Option String)
        → run.parent_run_id ≡ o
        → assert_parent s o ≡ ok tt
        → assert_one_active (s.runs ++ (run ∷ [])) ≡ ok tt
    by_parent none e h =
        let count = top_level-append run s.runs in
        let zero' = none_top_level run s.runs in ground arith
    by_parent (some id) e h = let count = top_level-append run s.runs in ground arith

parent_of :
    (s : SessionSnapshot) (o : Option String) (id : String)
    → assert_parent s o ≡ ok tt
    → o ≡ some id
    → (p : Run) × (run_by_id s.runs id ≡ some p) × (is_active (run_status p) ≡ true)
parent_of s none id h e = cc
parent_of s (some x) id h e =
    let (e1, h1) = guard-eq-ok (advertises s.session "run.child") unsupported _ h in
    let (p, found, h2) = >>=-eq-ok (require (run_by_id s.runs x) invalid_reference) _ h1 in
    let same : x ≡ id = cc in
    (
      p,
      subst (λ y. run_by_id s.runs y ≡ some p) same
          (require-eq-ok (run_by_id s.runs x) invalid_reference found),
      ground arith,
    )

retried_of :
    (s : SessionSnapshot) (o : Option String) (id : String)
    → assert_retry s o ≡ ok tt
    → o ≡ some id
    → (p : Run) × (run_by_id s.runs id ≡ some p) × (is_active (run_status p) ≡ false)
retried_of s none id h e = cc
retried_of s (some x) id h e =
    let (p, found, h2) = >>=-eq-ok (require (run_by_id s.runs x) invalid_reference) _ h in
    let same : x ≡ id = cc in
    (
      p,
      subst (λ y. run_by_id s.runs y ≡ some p) same
          (require-eq-ok (run_by_id s.runs x) invalid_reference found),
      ground arith,
    )

start-Fits :
    (s : SessionSnapshot) (run : Run)
    → validate_state s ≡ ok tt
    → is_active (run_status run) ≡ true
    → includes (run_ids s.runs) run.id ≡ false
    → assert_parent s run.parent_run_id ≡ ok tt
    → assert_retry s run.retry_of ≡ ok tt
    → Fits s run
unfolding put_run assert_run_transition assert_unique
start-Fits s run valid active new parent retry =
    let v = validate_state-Checked s valid in
    let absent = absent_found run s.runs new in
    let put' = absent_put run s.runs new in
    let same_ids = ids-append run s.runs in
    let still = distinct-append run (run_ids s.runs) run.id v.unique new in
    record {
      put = cc (absent, put', active);
      unique = cc (same_ids, still);
      one_active = still_one_active s run v.one_active parent;
      parent_active = λ id e. parent_of s run.parent_run_id id parent e;
      retried_ended = λ id e. retried_of s run.retry_of id retry e;
    }

-- When `validateCommand` admits the start of a run, the snapshot is open and has passed
-- `validateState`, and a run with that identity, parent and retried run that is active can be put. The
-- command and the snapshot are those that the parse returns, with their identities in canonical form.
pub admitted_start-Fits :
    (while_running : Json → Bool) (s : SessionSnapshot) (c result : Command) (now : Timestamp)
    (blocks : List ContentBlock) (run : Run)
    → result.body ≡ run_start run.id blocks run.parent_run_id run.retry_of
    → is_active (run_status run) ≡ true
    → validate_command while_running s c now ≡ ok result
    → (validate_state (canonical_snapshot s) ≡ ok tt)
      × (is_closed (canonical_snapshot s).session.status ≡ false)
      × Fits (canonical_snapshot s) run
unfolding assert_command assert_body
admitted_start-Fits while_running given value c now blocks run starts active h =
    let s = canonical_snapshot given in
    let v = validate_command-Checked while_running given value c now h in
    let body : assert_command while_running s now c
          (run_start run.id blocks run.parent_run_id run.retry_of)
        ≡ ok tt =
      cc (v.asked, starts) in
    let (open', asked) = guard-eq-ok (not (is_closed s.session.status)) invalid_transition _ body in
    let (new, h10) =
      guard-eq-ok (not (includes (run_ids s.runs) run.id)) invalid_reference _ asked in
    let (u, parent, retry) = >>=-eq-ok (assert_parent s run.parent_run_id) _ h10 in
    (v.valid, ground arith, start-Fits s run v.valid active ground arith parent retry)
