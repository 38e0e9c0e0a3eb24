-- ===== src/Contract/Reducer/Removal.antt =====
-- The descendants that a removal collects (`applyMutation` of src/contract/reducer.ts): the loop ends
-- within the bound, and what it collects is closed under children.
use mosoo_agent_driver.Base.{
  ℕ, zero, suc, ◌+◌, ◌≤◌, ◌<◌, ◌≡◌, ◌≢◌, refl, sym, ap, ◌∙◌, subst, inl, inr, String, Bool, true,
  false, not, ◌||◌, Option, none, some, List, [], ◌∷◌, All, every, length, ◌==◌, if◌then◌else◌,
  Bool-cases, arith,
}
use mosoo_agent_driver.Contract.State.{Run}
use mosoo_agent_driver.Contract.Transition.{includes, distinct}
use mosoo_agent_driver.Contract.RunGraph.Fuel.{pigeonhole, ids_of, length-ids_of}
use mosoo_agent_driver.Contract.Reducer.{collect_one, collect_pass, collect_removed}

-- a child of a collected run is collected
abbrev pub under_collected : List String → Option String → Bool → Bool
under_collected removed none collected = true
under_collected removed (some parent) collected = not (includes removed parent) || collected

abbrev pub child_collected : List String → Run → Bool
child_collected removed r = under_collected removed r.parent_run_id (includes removed r.id)

-- what one run of a pass does
data Step (r : Run) (removed : List String) : Type 0 where
  kept : collect_one r removed ≡ removed → child_collected removed r ≡ true → Step r removed
  added : collect_one r removed ≡ r.id ∷ removed → includes removed r.id ≡ false → Step r removed

Step-of : (r : Run) (removed : List String) → Step r removed
unfolding collect_one
Step-of r removed = by_parent r.parent_run_id refl
  where
    by_parent : (o : Option String) → r.parent_run_id ≡ o → Step r removed
    by_parent none e = kept (ground arith) (ground arith)
    by_parent (some parent) e = elim (Bool-cases (includes removed r.id)) [
      | inl old ↦ kept (ground arith) (ground arith)
      | inr new ↦ elim (Bool-cases (includes removed parent)) [
        | inl under ↦ added (ground arith) new
        | inr apart ↦ kept (ground arith) (ground arith)
      ]
    ]

pass-grows :
    (rs : List Run) (removed : List String) → length removed ≤ length (collect_pass rs removed)
unfolding collect_pass
pass-grows [] removed = ground arith
pass-grows (r ∷ rs) removed =
    let rest = pass-grows rs (collect_one r removed) in
    elim (Step-of r removed) [
      | kept e c ↦ ground (arith, ap length e)
      | added e c ↦ ground (arith, ap length e)
    ]

-- A pass that adds nothing has found every child collected.
pass-stable :
    (rs : List Run) (removed : List String)
    → length (collect_pass rs removed) ≡ length removed
    → (collect_pass rs removed ≡ removed) × All (λ (r : Run). child_collected removed r ≡ true) rs
unfolding collect_pass
pass-stable [] removed h = (refl, tt)
pass-stable (r ∷ rs) removed h = elim (Step-of r removed) [
  | kept e c ↦
      let (same_rest, all) =
        pass-stable rs removed (ap (λ xs. length (collect_pass rs xs)) (sym e) ∙ h) in
      (ap (collect_pass rs) e ∙ same_rest, (c, all))
  | added e c ↦
      let rest = pass-grows rs (collect_one r removed) in
      let longer = ap length e in elim (absurd_growth rest longer h) [ ]
]
  where
    absurd_growth : {a b c : ℕ} → a ≤ b → a ≡ suc c → b ≡ c → ⊥
    absurd_growth h k l = omega (arith, h, k, l)

-- collected identities: distinct, and those of runs
pub record IsCollected (ids removed : List String) : Type 0 where
  pub once : distinct removed ≡ true
  pub within : every (includes ids) removed ≡ true

step-IsCollected :
    (ids : List String) (r : Run) (removed : List String)
    → includes ids r.id ≡ true
    → IsCollected ids removed
    → IsCollected ids (collect_one r removed)
unfolding distinct
step-IsCollected ids r removed member h = elim (Step-of r removed) [
  | kept e c ↦ subst (IsCollected ids) (sym e) h
  | added e fresh ↦
      let once = h.once in
      let within = h.within in
      subst (IsCollected ids) (sym e) (record { once = ground arith; within = ground arith })
]

pass-IsCollected :
    (ids : List String) (rs : List Run) (removed : List String)
    → All (λ (r : Run). includes ids r.id ≡ true) rs
    → IsCollected ids removed
    → IsCollected ids (collect_pass rs removed)
unfolding collect_pass
pass-IsCollected ids [] removed members h = h
pass-IsCollected ids (r ∷ rs) removed members h =
    pass-IsCollected ids rs (collect_one r removed) members.1
      (step-IsCollected ids r removed members.0 h)

pass-includes :
    (v : String) (rs : List Run) (removed : List String)
    → includes removed v ≡ true
    → includes (collect_pass rs removed) v ≡ true
unfolding collect_pass includes
pass-includes v [] removed h = h
pass-includes v (r ∷ rs) removed h =
    pass-includes v rs (collect_one r removed) (elim (Step-of r removed) [
      | kept e c ↦ ap (λ xs. includes xs v) e ∙ h
      | added e fresh ↦ ap (λ xs. includes xs v) e ∙ ground arith
    ])

-- With fuel for each run that is left, the loop ends with the children of what it collected.
pub collect_removed-closed :
    (fuel : ℕ) (runs : List Run) (removed : List String)
    → All (λ (r : Run). includes (ids_of runs) r.id ≡ true) runs
    → IsCollected (ids_of runs) removed
    → length runs < fuel + length removed
    → All (λ (r : Run). child_collected (collect_removed fuel runs removed) r ≡ true) runs
unfolding collect_removed
collect_removed-closed zero runs removed members h enough =
    let few = pigeonhole (ids_of runs) removed h.once h.within in
    let same_length = length-ids_of runs in elim (too_many few same_length enough) [ ]
  where
    too_many : {a b c : ℕ} → a ≤ b → b ≡ c → c < 0 + a → ⊥
    too_many h k l = omega (arith, h, k, l)
collect_removed-closed (suc fuel) runs removed members h enough =
    let next = collect_pass runs removed in
    elim (Bool-cases (length next == length removed)) [
      | inl stable ↦
          let (same_set, all) = pass-stable runs removed (ground arith) in
          let result : collect_removed (suc fuel) runs removed ≡ removed =
            ground (arith, same_set) in
          subst (λ xs. All (λ (r : Run). child_collected xs r ≡ true) runs) (sym result) all
      | inr grown ↦
          let longer = pass-grows runs removed in
          let rest =
            collect_removed-closed fuel runs next members
              (pass-IsCollected (ids_of runs) runs removed members h)
              (further (length runs) fuel (length removed) (length next) enough longer
                (ground arith)) in
          let result : collect_removed (suc fuel) runs removed ≡ collect_removed fuel runs next =
            ground arith in
          subst (λ xs. All (λ (r : Run). child_collected xs r ≡ true) runs) (sym result) rest
    ]
  where
    further : (a f b c : ℕ) → a < suc f + b → b ≤ c → c ≢ b → a < f + c
    further a f b c h k l = omega (arith, h, k, l)

pub collect_removed-includes :
    (v : String) (fuel : ℕ) (runs : List Run) (removed : List String)
    → includes removed v ≡ true
    → includes (collect_removed fuel runs removed) v ≡ true
unfolding collect_removed
collect_removed-includes v zero runs removed h = h
collect_removed-includes v (suc fuel) runs removed h =
    let next = collect_pass runs removed in
    let kept = pass-includes v runs removed h in
    let rest = collect_removed-includes v fuel runs next kept in
    elim (Bool-cases (length next == length removed)) [
      | inl stable ↦
          ap (λ b. includes (if b then next else collect_removed fuel runs next) v) stable ∙ kept
      | inr grown ↦
          ap (λ b. includes (if b then next else collect_removed fuel runs next) v) grown ∙ rest
    ]
