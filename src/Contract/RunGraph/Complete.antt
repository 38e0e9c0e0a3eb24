-- ===== src/Contract/RunGraph/Complete.antt =====
-- The other direction for `assertAcyclicRunRelation` (src/contract/state-validation.ts): a relation
-- whose chains end is accepted.
use mosoo_agent_driver.Base.{
  ℕ, zero, suc, ◌<◌, ◌≡◌, ◌≢◌, refl, sym, ap, ◌∙◌, subst, ◌⊎◌, ◌↔◌, inl, inr, String, true, Option,
  none, some, List, [], ◌∷◌, ◌++◌, map, All, length, str_eq, str_eq→eq, Bool-cases, Result, ok, err,
  ◌>>=◌, arith,
}
use mosoo_agent_driver.Contract.Common.{ContractError, invalid_transition, out_of_fuel}
use mosoo_agent_driver.Contract.State.{Run}
use mosoo_agent_driver.Contract.Transition.{includes, distinct}
use mosoo_agent_driver.Contract.RunGraph.{run_by_id, related, chase, complete_all, assert_acyclic}
use mosoo_agent_driver.Contract.RunGraph.Acyclic.{
  All-known, acyclic_chains_end, IsKnown, related-IsKnown, Ends, end, link,
}
use mosoo_agent_driver.Contract.RunGraph.Fuel.{acyclic_check_terminates}

module _ (runs : List Run) (relation : Run → Option String) where
  -- the number of links of a chain that ends
  data Depth : ℕ → Run → Type 0 where
    top : (r : Run) → related runs (relation r) ≡ none → Depth 0 r
    below : (n : ℕ) (r p : Run) → related runs (relation r) ≡ some p → Depth n p → Depth (suc n) r

  Ends-Depth : (r : Run) → Ends runs relation r → (n : ℕ) × Depth n r
  Ends-Depth r (end _ e) = (0, top r e)
  Ends-Depth r (link _ p e h) = let (n, d) = Ends-Depth p h in (suc n, below n r p e d)

  Depth-unique : (n m : ℕ) (r : Run) → Depth n r → Depth m r → n ≡ m
  Depth-unique _ _ r (top _ e) (top _ e') = refl
  Depth-unique _ _ r (top _ e) (below m _ p e' d) = cc
  Depth-unique _ _ r (below n _ p e d) (top _ e') = cc
  Depth-unique _ _ r (below n _ p e d) (below m _ p' e' d') =
      let same_run : p' ≡ p = cc in ap suc (Depth-unique n m p d (subst (Depth m) same_run d'))

  -- the runs that are being visited are further from the end
  abbrev IsAhead : ℕ → List String → Type 0
  IsAhead n visiting =
      (r : Run) (m : ℕ)
      → run_by_id runs r.id ≡ some r
      → includes visiting r.id ≡ true
      → Depth m r
      → n < m

  abbrev HasDepth : ℕ → Option Run → Type 0
  HasDepth n none = Unit
  HasDepth n (some r) = Depth n r

  IsAhead-none : (n : ℕ) → IsAhead n []
  unfolding includes
  IsAhead-none n r m known member d = cc

  IsAhead-cons :
      (n : ℕ) (r : Run) (visiting : List String)
      → run_by_id runs r.id ≡ some r
      → Depth (suc n) r
      → IsAhead (suc n) visiting
      → IsAhead n (r.id ∷ visiting)
  unfolding includes
  IsAhead-cons n r visiting known d ahead r' m known' member d' =
      elim (Bool-cases (str_eq r'.id r.id)) [
        | inl hit ↦
            let found = sym known ∙ ap (run_by_id runs) (sym (str_eq→eq _ _ hit)) ∙ known' in
            let same_run : r' ≡ r = cc in
            let deep = Depth-unique m (suc n) r (subst (Depth m) same_run d') d in
            omega (arith, deep)
        | inr miss ↦ let deeper = ahead r' m known' (ground arith) d' in omega (arith, deeper)
      ]

  known_after : (r p : Run) → related runs (relation r) ≡ some p → run_by_id runs p.id ≡ some p
  known_after r p e = subst (IsKnown runs relation) e (related-IsKnown runs relation (relation r))

  chase-accepts :
      (fuel : ℕ) (complete visiting : List String) (n : ℕ) (r : Run)
      → Depth n r
      → run_by_id runs r.id ≡ some r
      → IsAhead n visiting
      → chase fuel runs relation complete visiting (some r) ≢ err invalid_transition
  unfolding chase
  chase-accepts zero complete visiting n r d known ahead = cc
  chase-accepts (suc fuel) complete visiting _ r (top _ e) known ahead =
      let free : includes visiting r.id ≢ true =
        λ visited. omega (arith, ahead r 0 known visited (top r e)) in
      ground arith
  chase-accepts (suc fuel) complete visiting _ r (below n _ p e d) known ahead =
      let free : includes visiting r.id ≢ true =
        λ visited. omega (arith, ahead r (suc n) known visited (below n r p e d)) in
      let rest =
        chase-accepts fuel complete (r.id ∷ visiting) n p d (known_after r p e)
          (IsAhead-cons n r visiting known (below n r p e d) ahead) in
      ground arith

  complete_all-accepts :
      (roots : List Run) (complete : List String)
      → All (λ (r : Run). run_by_id runs r.id ≡ some r) roots
      → All (Ends runs relation) roots
      → complete_all runs relation roots complete ≢ err invalid_transition
  unfolding complete_all
  complete_all-accepts [] complete known ends = cc
  complete_all-accepts (r ∷ rs) complete known ends =
      let (n, d) = Ends-Depth r ends.0 in
      settle (chase (suc (length runs)) runs relation complete [] (some r))
        (chase-accepts (suc (length runs)) complete [] n r d known.0 (IsAhead-none n))
        (λ path. complete_all-accepts rs (path ++ complete) known.1 ends.1)
    where
      settle :
          (result : Result ContractError (List String))
          → result ≢ err invalid_transition
          → ((path : List String)
              → complete_all runs relation rs (path ++ complete) ≢ err invalid_transition)
          → (result >>= λ path. complete_all runs relation rs (path ++ complete))
            ≢ err invalid_transition
      settle (ok path) h k = k path
      settle (err e) h k = λ x. h (ground arith)

  -- the loop fails in no other way
  chase-errors :
      (fuel : ℕ) (complete visiting : List String) (o : Option Run) (e : ContractError)
      → chase fuel runs relation complete visiting o ≡ err e
      → (e ≡ invalid_transition) ⊎ (e ≡ out_of_fuel)
  unfolding chase
  chase-errors fuel complete visiting none e h = cc
  chase-errors zero complete visiting (some r) e h = inr (ground arith)
  chase-errors (suc fuel) complete visiting (some r) e h =
      let rest = chase-errors fuel complete (r.id ∷ visiting) (related runs (relation r)) e in
      ground arith

  complete_all-errors :
      (roots : List Run) (complete : List String) (e : ContractError)
      → complete_all runs relation roots complete ≡ err e
      → (e ≡ invalid_transition) ⊎ (e ≡ out_of_fuel)
  unfolding complete_all
  complete_all-errors [] complete e h = cc
  complete_all-errors (r ∷ rs) complete e h =
      settle (chase (suc (length runs)) runs relation complete [] (some r))
        (chase-errors (suc (length runs)) complete [] (some r))
        (λ path. complete_all-errors rs (path ++ complete) e) h
    where
      settle :
          (result : Result ContractError (List String))
          → ((e' : ContractError)
              → result ≡ err e'
              → (e' ≡ invalid_transition) ⊎ (e' ≡ out_of_fuel))
          → ((path : List String)
              → complete_all runs relation rs (path ++ complete) ≡ err e
              → (e ≡ invalid_transition) ⊎ (e ≡ out_of_fuel))
          → (result >>= λ path. complete_all runs relation rs (path ++ complete)) ≡ err e
          → (e ≡ invalid_transition) ⊎ (e ≡ out_of_fuel)
      settle (ok path) k onward x = onward path x
      settle (err e') k onward x = k e (ground arith)

-- a result that fails in neither way
decide :
    {A : Type 0} (result : Result ContractError A)
    → result ≢ err invalid_transition
    → (result >>= λ a. ok (tt {0})) ≢ err out_of_fuel
    → ((e : ContractError) → result ≡ err e → (e ≡ invalid_transition) ⊎ (e ≡ out_of_fuel))
    → (result >>= λ a. ok (tt {0})) ≡ ok tt
decide (ok a) free bounded errors = refl
decide (err e) free bounded errors = elim (errors e refl) [
  | inl invalid ↦ elim (free (ap err invalid)) [ ]
  | inr cut_off ↦ elim (bounded (ap err cut_off)) [ ]
]

ending_chains_accepted :
    (runs : List Run) (relation : Run → Option String)
    → distinct (map (λ (r : Run). r.id) runs) ≡ true
    → All (Ends runs relation) runs
    → assert_acyclic runs relation ≡ ok tt
unfolding assert_acyclic
ending_chains_accepted runs relation unique ends =
    decide (complete_all runs relation runs [])
      (complete_all-accepts runs relation runs [] (All-known runs unique) ends)
      (acyclic_check_terminates runs relation unique) (complete_all-errors runs relation runs [])

-- With distinct identities, `assertAcyclicRunRelation` accepts a relation exactly when the chain of
-- each run along it comes to an end.
pub acyclic_iff_chains_end :
    (runs : List Run) (relation : Run → Option String)
    → distinct (map (λ (r : Run). r.id) runs) ≡ true
    → (assert_acyclic runs relation ≡ ok tt) ↔ All (Ends runs relation) runs
acyclic_iff_chains_end runs relation unique =
    (acyclic_chains_end runs relation unique, ending_chains_accepted runs relation unique)
