-- ===== src/Contract/RunGraph/Acyclic.antt =====
-- What a relation between runs is like that `assertAcyclicRunRelation`
-- (src/contract/state-validation.ts) admits: every chain ends.
use mosoo_agent_driver.Base.{
  ℕ, zero, suc, ◌≡◌, refl, sym, ap, ◌∙◌, subst, ◌⊎◌, inl, inr, String, Bool, true, false, Option,
  none, some, List, [], ◌∷◌, ◌++◌, map, All, length, str_eq, str_eq→eq, str_eq_self, if◌then◌else◌,
  Bool-cases, Result, ok, err, ◌>>=◌, arith, >>=-eq-ok,
}
use mosoo_agent_driver.Contract.Common.{ContractError, invalid_transition}
use mosoo_agent_driver.Contract.State.{Run}
use mosoo_agent_driver.Contract.Transition.{includes, distinct}
use mosoo_agent_driver.Contract.RunGraph.{run_by_id, related, chase, complete_all, assert_acyclic}

-- the run that is found is one of that identity, so it is the one found by its own identity
pub run_by_id-id :
    (runs : List Run) (id : String) (r : Run) → run_by_id runs id ≡ some r → r.id ≡ id
run_by_id-id [] id r h = cc
run_by_id-id (x ∷ xs) id r h = elim (Bool-cases (str_eq x.id id)) [
  | inl hit ↦ let same_id = str_eq→eq x.id id hit in ground arith
  | inr miss ↦ run_by_id-id xs id r (ground arith)
]

pub run_by_id_self :
    (runs : List Run) (id : String) (r : Run)
    → run_by_id runs id ≡ some r
    → run_by_id runs r.id ≡ some r
run_by_id_self runs id r h = ap (run_by_id runs) (run_by_id-id runs id r h) ∙ h

includes-append :
    (xs ys : List String) (v : String)
    → includes (xs ++ ys) v ≡ true
    → (includes xs v ≡ true) ⊎ (includes ys v ≡ true)
unfolding includes
includes-append [] ys v h = inr h
includes-append (x ∷ xs) ys v h = elim (Bool-cases (str_eq v x)) [
  | inl hit ↦ inl (ground arith)
  | inr miss ↦ elim (includes-append xs ys v (ground arith)) [
    | inl l ↦ inl (ground arith)
    | inr r ↦ inr r
  ]
]

the_path : {p q : List String} → ◌≡◌ {A = Result ContractError (List String)} (ok p) (ok q) → p ≡ q
the_path h = cc

module _ (runs : List Run) (relation : Run → Option String) where
  -- The chain of a run along the relation comes to an end.
  pub data Ends : Run → Type 0 where
    end : (r : Run) → related runs (relation r) ≡ none → Ends r
    link : (r p : Run) → related runs (relation r) ≡ some p → Ends p → Ends r

  -- the chains of the runs of these identities end
  abbrev AreEnding : List String → Type 0
  AreEnding ids = (r : Run) → run_by_id runs r.id ≡ some r → includes ids r.id ≡ true → Ends r

  abbrev EndsFrom : Option Run → Type 0
  EndsFrom none = Unit
  EndsFrom (some r) = Ends r

  abbrev pub IsKnown : Option Run → Type 0
  IsKnown none = Unit
  IsKnown (some r) = run_by_id runs r.id ≡ some r

  pub related-IsKnown : (id : Option String) → IsKnown (related runs id)
  related-IsKnown none = tt
  related-IsKnown (some id) = known (run_by_id runs id) refl
    where
      known : (o : Option Run) → run_by_id runs id ≡ o → IsKnown o
      known none e = tt
      known (some r) e = run_by_id_self runs id r e

  AreEnding-none : AreEnding []
  unfolding includes
  AreEnding-none r known member = cc

  Ends-step : (r : Run) → EndsFrom (related runs (relation r)) → Ends r
  Ends-step r h = from (related runs (relation r)) refl h
    where
      from : (o : Option Run) → related runs (relation r) ≡ o → EndsFrom o → Ends r
      from none e h = end r e
      from (some p) e h = link r p e h

  AreEnding-cons :
      (r : Run) (ids : List String)
      → run_by_id runs r.id ≡ some r
      → Ends r
      → AreEnding ids
      → AreEnding (r.id ∷ ids)
  unfolding includes
  AreEnding-cons r ids known ends all r' known' member = elim (Bool-cases (str_eq r'.id r.id)) [
    | inl hit ↦
        let found = sym known ∙ ap (run_by_id runs) (sym (str_eq→eq _ _ hit)) ∙ known' in
        let same_run : r ≡ r' = cc in subst Ends same_run ends
    | inr miss ↦ all r' known' (ground arith)
  ]

  chase-Ends :
      (fuel : ℕ) (complete visiting : List String) (o : Option Run) (path : List String)
      → AreEnding complete
      → IsKnown o
      → chase fuel runs relation complete visiting o ≡ ok path
      → EndsFrom o × AreEnding path
  unfolding chase
  chase-Ends fuel complete visiting none path all known h =
      (tt, subst AreEnding (the_path h) AreEnding-none)
  chase-Ends zero complete visiting (some r) path all known h = cc
  chase-Ends (suc fuel) complete visiting (some r) path all known h =
      step (includes complete r.id) refl (includes visiting r.id)
        (λ p e.
          chase-Ends fuel complete (r.id ∷ visiting) (related runs (relation r)) p all
            (related-IsKnown (relation r)) e)
        h
    where
      rest : Result ContractError (List String)
      rest = chase fuel runs relation complete (r.id ∷ visiting) (related runs (relation r))

      step :
          (completed : Bool)
          → includes complete r.id ≡ completed
          → (visited : Bool)
          → ((p : List String) → rest ≡ ok p → EndsFrom (related runs (relation r)) × AreEnding p)
          → (if completed
              then ok []
              else if visited
              then err invalid_transition
              else (do p ← rest; ok (r.id ∷ p)))
            ≡ ok path
          → Ends r × AreEnding path
      step true c visited onward k = (all r known c, subst AreEnding (the_path k) AreEnding-none)
      step false c true onward k = cc
      step false c false onward k =
          let (p, e, k1) = >>=-eq-ok rest (λ p. ok (r.id ∷ p)) k in
          let (from, along) = onward p e in
          let ends = Ends-step r from in
          (ends, subst AreEnding (the_path k1) (AreEnding-cons r p known ends along))

  AreEnding-append : (xs ys : List String) → AreEnding xs → AreEnding ys → AreEnding (xs ++ ys)
  AreEnding-append xs ys hx hy r known member = elim (includes-append xs ys r.id member) [
    | inl left ↦ hx r known left
    | inr right ↦ hy r known right
  ]

  complete_all-Ends :
      (roots : List Run) (complete result : List String)
      → AreEnding complete
      → All (λ (r : Run). run_by_id runs r.id ≡ some r) roots
      → complete_all runs relation roots complete ≡ ok result
      → All Ends roots
  unfolding complete_all
  complete_all-Ends [] complete result all known h = tt
  complete_all-Ends (r ∷ rs) complete result all known h =
      let (path, e, k) =
        >>=-eq-ok (chase (suc (length runs)) runs relation complete [] (some r)) _ h in
      let (ends, along) = chase-Ends (suc (length runs)) complete [] (some r) path all known.0 e in
      (
        ends,
        complete_all-Ends rs (path ++ complete) result (AreEnding-append path complete along all)
            known.1 k,
      )

-- distinct identities: each run is found by its own
not_first :
    (x : Run) (xs : List Run) (rs : List Run)
    → All (λ (r : Run). (run_by_id xs r.id ≡ some r) × (str_eq x.id r.id ≡ false)) rs
    → All (λ (r : Run). run_by_id (x ∷ xs) r.id ≡ some r) rs
not_first x xs [] h = tt
not_first x xs (r ∷ rs) h = (ground arith, not_first x xs rs h.1)

absent :
    (v : String) (rs : List Run)
    → includes (map (λ (r : Run). r.id) rs) v ≡ false
    → All (λ (r : Run). str_eq v r.id ≡ false) rs
unfolding includes
absent v [] h = tt
absent v (r ∷ rs) h = (ground arith, absent v rs (ground arith))

pair_up :
    (xs : List Run) (v : String) (rs : List Run)
    → All (λ (r : Run). run_by_id xs r.id ≡ some r) rs
    → All (λ (r : Run). str_eq v r.id ≡ false) rs
    → All (λ (r : Run). (run_by_id xs r.id ≡ some r) × (str_eq v r.id ≡ false)) rs
pair_up xs v [] h k = tt
pair_up xs v (r ∷ rs) h k = ((h.0, k.0), pair_up xs v rs h.1 k.1)

pub All-known :
    (runs : List Run)
    → distinct (map (λ (r : Run). r.id) runs) ≡ true
    → All (λ (r : Run). run_by_id runs r.id ≡ some r) runs
unfolding distinct
All-known [] h = tt
All-known (r ∷ rs) h = (
  rw (str_eq_self r.id),
  not_first r rs rs
      (pair_up rs r.id rs (All-known rs (ground arith)) (absent r.id rs (ground arith))),
)

-- When the identities of the runs are distinct and `assertAcyclicRunRelation` accepts a relation
-- between them, the chain of each run along the relation comes to an end: there is no cycle.
pub acyclic_chains_end :
    (runs : List Run) (relation : Run → Option String)
    → distinct (map (λ (r : Run). r.id) runs) ≡ true
    → assert_acyclic runs relation ≡ ok tt
    → All (Ends runs relation) runs
unfolding assert_acyclic
acyclic_chains_end runs relation unique h =
    let (complete, e, k) = >>=-eq-ok (complete_all runs relation runs []) _ h in
    complete_all-Ends runs relation runs [] complete (AreEnding-none runs relation)
      (All-known runs unique) e
