-- ===== src/Contract/Reducer/Orphans.antt =====
-- What the removal of a run leaves (`applyMutation` of src/contract/reducer.ts).
use mosoo_agent_driver.Base.{
  ◌≡◌, refl, sym, ap, ◌∙◌, subst, String, Bool, true, false, not, Option, none, some, List, [], ◌∷◌,
  All, filter, length, str_eq_self, if◌then◌else◌, ok, require, arith, >>=-eq-ok, require-eq-ok,
}
use mosoo_agent_driver.Contract.Common.{invalid_reference}
use mosoo_agent_driver.Contract.State.{Run}
use mosoo_agent_driver.Contract.Transition.{includes, distinct}
use mosoo_agent_driver.Contract.RunGraph.{run_by_id}
use mosoo_agent_driver.Contract.RunGraph.Acyclic.{run_by_id-id}
use mosoo_agent_driver.Contract.RunGraph.Fuel.{ids_of, known-includes}
use mosoo_agent_driver.Contract.Reducer.{Draft, prune, collect_removed, remove_tree}
use mosoo_agent_driver.Contract.Reducer.Lifecycle.{find-filter_keys}
use mosoo_agent_driver.Contract.Reducer.Final.{prune-frame}
use mosoo_agent_driver.Contract.Reducer.Removal.{
  under_collected, child_collected, IsCollected, collect_removed-closed, collect_removed-includes,
}

members-cons :
    (v : String) (ids : List String) (rs : List Run)
    → All (λ (r : Run). includes ids r.id ≡ true) rs
    → All (λ (r : Run). includes (v ∷ ids) r.id ≡ true) rs
unfolding includes
members-cons v ids [] h = tt
members-cons v ids (r ∷ rs) h = (ground arith, members-cons v ids rs h.1)

members : (rs : List Run) → All (λ (r : Run). includes (ids_of rs) r.id ≡ true) rs
unfolding includes
members [] = tt
members (r ∷ rs) = (rw (str_eq_self r.id), members-cons r.id (ids_of rs) rs (members rs))

root-IsCollected :
    (runs : List Run) (id : String)
    → includes (ids_of runs) id ≡ true
    → IsCollected (ids_of runs) (id ∷ [])
unfolding distinct includes
root-IsCollected runs id h = record { once = refl; within = ground arith }

-- a run that a parent's identity names is found as it was before
abbrev pub IsFoundAsBefore : List Run → List Run → Option String → Type 0
IsFoundAsBefore before after none = Unit
IsFoundAsBefore before after (some id) = run_by_id after id ≡ run_by_id before id

abbrev pub KeepsParent : List Run → List Run → Run → Type 0
KeepsParent before after r = IsFoundAsBefore before after r.parent_run_id

-- the runs that are not collected
abbrev left : List String → List Run → List Run
left removed = filter (λ (r : Run). not (includes removed r.id))

parent-found :
    (removed : List String) (runs : List Run) (parent : Option String)
    → under_collected removed parent false ≡ true
    → IsFoundAsBefore runs (left removed runs) parent
parent-found removed runs none closed = tt
parent-found removed runs (some parent) closed =
    let stays : includes removed parent ≡ false = ground arith in
    find-filter_keys (λ (r : Run). r.id) removed parent runs
    ∙ ap (λ b. if b then none else run_by_id runs parent) stays

All-KeepsParent :
    (removed : List String) (runs rs : List Run)
    → All (λ (r : Run). child_collected removed r ≡ true) rs
    → All (KeepsParent runs (left removed runs)) (left removed rs)
All-KeepsParent removed runs [] h = tt
All-KeepsParent removed runs (r ∷ rs) h =
    pick (includes removed r.id) h.0 (All-KeepsParent removed runs rs h.1)
  where
    pick :
        (b : Bool)
        → under_collected removed r.parent_run_id b ≡ true
        → All (KeepsParent runs (left removed runs)) (left removed rs)
        → All
            (KeepsParent runs (left removed runs))
            (if not b then r ∷ left removed rs else left removed rs)
    pick true closed rest = rest
    pick false closed rest = (parent-found removed runs r.parent_run_id closed, rest)

prune-left :
    (removed : List String) (d d' : Draft) → prune removed d ≡ ok d' → d'.runs ≡ left removed d.runs
prune-left removed d d' h = (prune-frame removed d d' h).1

self_included : (id : String) → includes (id ∷ []) id ≡ true
unfolding includes
self_included id = rw (str_eq_self id)

collected-outcome :
    (id : String) (d d' : Draft)
    → includes (ids_of d.runs) id ≡ true
    → prune (collect_removed (length d.runs) d.runs (id ∷ [])) d ≡ ok d'
    → (run_by_id d'.runs id ≡ none) × All (KeepsParent d.runs d'.runs) d'.runs
collected-outcome id d d' known k =
    let removed = collect_removed (length d.runs) d.runs (id ∷ []) in
    let pruned = prune-left removed d d' k in
    let gone = collect_removed-includes id (length d.runs) d.runs (id ∷ []) (self_included id) in
    let closed =
      collect_removed-closed (length d.runs) d.runs (id ∷ []) (members d.runs)
        (root-IsCollected d.runs id known) (omega arith) in
    (
      ap (λ rs. run_by_id rs id) pruned
          ∙ find-filter_keys (λ (r : Run). r.id) removed id d.runs
          ∙ ap (λ b. if b then none else run_by_id d.runs id) gone,
      subst (λ rs. All (KeepsParent d.runs rs) rs) (sym pruned)
          (All-KeepsParent removed d.runs d.runs closed),
    )

-- A successful removal of a run leaves no run of its identity, and of each run that is left the
-- parent, if it has one, is found as before: the descendants of the removed run are gone with it, and
-- no other run is orphaned.
pub removal_leaves_no_orphan :
    (id : String) (d d' : Draft)
    → remove_tree id d ≡ ok d'
    → (run_by_id d'.runs id ≡ none) × All (KeepsParent d.runs d'.runs) d'.runs
unfolding remove_tree
removal_leaves_no_orphan id d d' h =
    let (root, e, k) = >>=-eq-ok (require (run_by_id d.runs id) invalid_reference) _ h in
    let found = require-eq-ok (run_by_id d.runs id) invalid_reference e in
    let same_id = run_by_id-id d.runs id root found in
    collected-outcome id d d' (known-includes d.runs id root found)
      (subst (λ v. prune (collect_removed (length d.runs) d.runs (v ∷ [])) d ≡ ok d') same_id k)
