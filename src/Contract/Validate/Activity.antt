-- ===== src/Contract/Validate/Activity.antt =====
-- Who is active in a snapshot that `validateState` (src/contract/state-validation.ts) admits.
use mosoo_agent_driver.Base.{
  ◌≡◌, refl, ap, ◌∙◌, subst, inl, inr, String, Bool, true, false, Option, none, some, List, [], ◌∷◌,
  All, any, str_eq, Bool-cases, ok, arith,
}
use mosoo_agent_driver.Contract.State.{Run, run_status, is_active, Item}
use mosoo_agent_driver.Contract.Snapshot.{SessionSnapshot}
use mosoo_agent_driver.Contract.RunGraph.{run_by_id, related}
use mosoo_agent_driver.Contract.RunGraph.Acyclic.{
  Ends, end, link, acyclic_chains_end, run_by_id_self,
}
use mosoo_agent_driver.Contract.Checks.{is_active_top_level, assert_run, assert_child}
use mosoo_agent_driver.Contract.Validate.{assert_item, validate_state}
use mosoo_agent_driver.Contract.Validate.Admitted.{
  Checked, validate_state-Checked, run-child, child-parent, item-run,
}

-- what is found is one of the list
found-All :
    (P : Run → Type 0) (runs : List Run) (id : String) (r : Run)
    → All P runs
    → run_by_id runs id ≡ some r
    → P r
found-All P [] id r all h = cc
found-All P (x ∷ xs) id r all h = elim (Bool-cases (str_eq x.id id)) [
  | inl hit ↦ let same_run : x ≡ r = ground arith in subst P same_run all.0
  | inr miss ↦ found-All P xs id r all.1 (ground arith)
]

found-any :
    (p : Run → Bool) (runs : List Run) (id : String) (r : Run)
    → run_by_id runs id ≡ some r
    → p r ≡ true
    → any p runs ≡ true
found-any p [] id r h holds = cc
found-any p (x ∷ xs) id r h holds = elim (Bool-cases (str_eq x.id id)) [
  | inl hit ↦ let same_run : x ≡ r = ground arith in ground (arith, ap p same_run)
  | inr miss ↦ let rest = found-any p xs id r (ground arith) holds in ground arith
]

-- an active run stands at the top or has an active parent
data Above (s : SessionSnapshot) (r : Run) : Type 0 where
  at_top : is_active_top_level r ≡ true → Above s r
  under :
      (p : Run)
      → related s.runs r.parent_run_id ≡ some p
      → run_by_id s.runs p.id ≡ some p
      → is_active (run_status p) ≡ true
      → Above s r

child-Above :
    (s : SessionSnapshot) (r : Run) (parent : Option String)
    → r.parent_run_id ≡ parent
    → assert_child s.session s.runs r parent ≡ ok tt
    → is_active (run_status r) ≡ true
    → Above s r
child-Above s r none e h active = at_top (ground arith)
child-Above s r (some id) e h active =
    let (p, found, follows) = child-parent s r id h in
    under p (ap (related s.runs) e ∙ found) (run_by_id_self s.runs id p found) (follows active)

module _ (s : SessionSnapshot) (checked : Checked s) where
  run-Above :
      (r : Run) → run_by_id s.runs r.id ≡ some r → is_active (run_status r) ≡ true → Above s r
  run-Above r known active =
      child-Above s r r.parent_run_id refl
        (run-child s r (found-All (λ r. assert_run s r ≡ ok tt) s.runs r.id r checked.runs known))
        active

  -- following the parents of an active run leads to an active one at the top
  active_root :
      (r : Run)
      → Ends s.runs (λ (r : Run). r.parent_run_id) r
      → run_by_id s.runs r.id ≡ some r
      → is_active (run_status r) ≡ true
      → any is_active_top_level s.runs ≡ true
  active_root r (end _ top) known active = elim (run-Above r known active) [
    | at_top t ↦ found-any is_active_top_level s.runs r.id r known t
    | under p next known' active' ↦ cc
  ]
  active_root r (link _ p next ends) known active = elim (run-Above r known active) [
    | at_top t ↦ found-any is_active_top_level s.runs r.id r known t
    | under q next' known' active' ↦
        let same_run : q ≡ p = cc in
        active_root p ends (subst (λ r. run_by_id s.runs r.id ≡ some r) same_run known')
          (subst (λ r. is_active (run_status r) ≡ true) same_run active')
  ]

  root-found :
      (id : String) (r : Run)
      → run_by_id s.runs id ≡ some r
      → is_active (run_status r) ≡ true
      → any is_active_top_level s.runs ≡ true
  root-found id r found active =
      active_root r
        (found-All (Ends s.runs (λ (r : Run). r.parent_run_id)) s.runs id r
          (acyclic_chains_end s.runs (λ (r : Run). r.parent_run_id) checked.unique checked.parents)
          found)
        (run_by_id_self s.runs id r found) active

-- When `validateState` admits a snapshot in which no run without a parent is active, no run is
-- active at all, and no item is.
pub no_active_top_level :
    (s : SessionSnapshot)
    → validate_state s ≡ ok tt
    → any is_active_top_level s.runs ≡ false
    → ((id : String) (r : Run) → run_by_id s.runs id ≡ some r → is_active (run_status r) ≡ false)
      × All (λ (i : Item). is_active i.status ≡ false) s.items
no_active_top_level s h quiet = (no_run, no_item s.items checked.items)
  where
    checked : Checked s
    checked = validate_state-Checked s h

    no_run :
        (id : String) (r : Run) → run_by_id s.runs id ≡ some r → is_active (run_status r) ≡ false
    no_run id r found = elim (Bool-cases (is_active (run_status r))) [
      | inl active ↦ let top = root-found s checked id r found active in cc
      | inr idle ↦ idle
    ]

    no_item :
        (is : List Item)
        → All (λ (i : Item). assert_item s i ≡ ok tt) is
        → All (λ (i : Item). is_active i.status ≡ false) is
    no_item [] all = tt
    no_item (i ∷ is) all =
        let (r, found, follows) = item-run s i all.0 in
        (
          elim (Bool-cases (is_active i.status)) [
            | inl active ↦ let top = root-found s checked i.run_id r found (follows active) in cc
            | inr idle ↦ idle
          ],
          no_item is all.1,
        )
