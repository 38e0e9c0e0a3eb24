-- ===== src/Contract/RunGraph/Fuel.antt =====
-- The loop of `assertAcyclicRunRelation` (src/contract/state-validation.ts) terminates: a chain
-- visits no more runs than there are, so the bound of the model is never met.
use mosoo_agent_driver.Base.{
  ℕ, zero, suc, ◌+◌, ◌≤◌, ◌≡◌, ◌≢◌, refl, ap, subst, inl, inr, String, true, false, not, Option,
  none, some, List, [], ◌∷◌, ◌++◌, map, All, every, filter, length, str_eq, str_eq→eq, str_eq_self,
  Bool-cases, Result, ok, err, ◌>>=◌, arith,
}
use mosoo_agent_driver.Contract.Common.{ContractError, out_of_fuel}
use mosoo_agent_driver.Contract.State.{Run}
use mosoo_agent_driver.Contract.Transition.{includes, distinct}
use mosoo_agent_driver.Contract.RunGraph.{run_by_id, related, chase, complete_all, assert_acyclic}
use mosoo_agent_driver.Contract.RunGraph.Acyclic.{All-known, IsKnown, related-IsKnown}

-- the texts of a list but one
abbrev without : String → List String → List String
without y = filter (λ v. not (str_eq v y))

without-includes :
    (y v : String) (xs : List String) → includes xs v ≡ false → includes (without y xs) v ≡ false
unfolding includes
without-includes y v [] h = h
without-includes y v (x ∷ xs) h = let rest = without-includes y v xs (ground arith) in ground arith

without-distinct :
    (y : String) (xs : List String) → distinct xs ≡ true → distinct (without y xs) ≡ true
unfolding distinct
without-distinct y [] h = refl
without-distinct y (x ∷ xs) h =
    let rest = without-distinct y xs (ground arith) in
    let fresh = without-includes y x xs (ground arith) in ground arith

without-absent : (y : String) (xs : List String) → includes xs y ≡ false → without y xs ≡ xs
unfolding includes
without-absent y [] h = refl
without-absent y (x ∷ xs) h =
    let rest = without-absent y xs (ground arith) in
    elim (Bool-cases (str_eq x y)) [
      | inl hit ↦ let same_text = str_eq→eq x y hit in let self = str_eq_self x in ground arith
      | inr miss ↦ ground arith
    ]

without-length :
    (y : String) (xs : List String) → distinct xs ≡ true → length xs ≤ suc (length (without y xs))
unfolding distinct
without-length y [] h = ground arith
without-length y (x ∷ xs) h = elim (Bool-cases (str_eq x y)) [
  | inl hit ↦
      let same_text = str_eq→eq x y hit in
      let rest =
        without-absent y xs (subst (λ v. includes xs v ≡ false) same_text (ground arith)) in
      ground (arith, ap length rest)
  | inr miss ↦ let rest = without-length y xs (ground arith) in ground arith
]

without-subset :
    (y : String) (ys xs : List String)
    → every (includes (y ∷ ys)) xs ≡ true
    → every (includes ys) (without y xs) ≡ true
unfolding includes
without-subset y ys [] h = refl
without-subset y ys (x ∷ xs) h = let rest = without-subset y ys xs (ground arith) in ground arith

-- Distinct texts from a list are no more than the list has.
pub pigeonhole :
    (ys xs : List String)
    → distinct xs ≡ true
    → every (includes ys) xs ≡ true
    → length xs ≤ length ys
unfolding includes
pigeonhole [] [] u h = ground arith
pigeonhole [] (x ∷ xs) u h = cc
pigeonhole (y ∷ ys) xs u h =
    let rest = pigeonhole ys (without y xs) (without-distinct y xs u) (without-subset y ys xs h) in
    let shorter = without-length y xs u in ground arith

abbrev pub ids_of : List Run → List String
ids_of = map (λ (r : Run). r.id)

pub length-ids_of : (runs : List Run) → length (ids_of runs) ≡ length runs
length-ids_of [] = refl
length-ids_of (r ∷ rs) = ap suc (length-ids_of rs)

pub known-includes :
    (runs : List Run) (id : String) (r : Run)
    → run_by_id runs id ≡ some r
    → includes (ids_of runs) id ≡ true
unfolding includes
known-includes [] id r h = cc
known-includes (x ∷ xs) id r h = elim (Bool-cases (str_eq x.id id)) [
  | inl hit ↦
      let same_text = str_eq→eq x.id id hit in
      let self = str_eq_self id in ground (arith, ap (str_eq id) same_text)
  | inr miss ↦ let rest = known-includes xs id r (ground arith) in ground arith
]

distinct-none : distinct [] ≡ true
unfolding distinct
distinct-none = refl

module _ (runs : List Run) (relation : Run → Option String) where
  chase-fuel :
      (fuel : ℕ) (complete visiting : List String) (o : Option Run)
      → fuel + length visiting ≡ suc (length runs)
      → distinct visiting ≡ true
      → every (includes (ids_of runs)) visiting ≡ true
      → IsKnown runs relation o
      → chase fuel runs relation complete visiting o ≢ err out_of_fuel
  unfolding chase distinct
  chase-fuel fuel complete visiting none spent u within known h = cc
  chase-fuel zero complete visiting (some r) spent u within known h =
      let few = pigeonhole (ids_of runs) visiting u within in
      let same_length = length-ids_of runs in ground arith
  chase-fuel (suc fuel) complete visiting (some r) spent u within known h =
      let member = known-includes runs r.id r known in
      elim (Bool-cases (includes visiting r.id)) [
        | inl visited ↦ ground arith
        | inr fresh ↦
            let rest =
              chase-fuel fuel complete (r.id ∷ visiting) (related runs (relation r)) (ground arith)
                (ground arith) (ground arith) (related-IsKnown runs relation (relation r)) in
            ground arith
      ]

  complete_all-fuel :
      (roots : List Run) (complete : List String)
      → All (λ (r : Run). run_by_id runs r.id ≡ some r) roots
      → complete_all runs relation roots complete ≢ err out_of_fuel
  unfolding complete_all
  complete_all-fuel [] complete known = cc
  complete_all-fuel (r ∷ rs) complete known =
      settle (chase (suc (length runs)) runs relation complete [] (some r))
        (chase-fuel (suc (length runs)) complete [] (some r) (ground arith) distinct-none refl
          known.0)
        (λ path. complete_all-fuel rs (path ++ complete) known.1)
    where
      settle :
          (result : Result ContractError (List String))
          → result ≢ err out_of_fuel
          → ((path : List String)
              → complete_all runs relation rs (path ++ complete) ≢ err out_of_fuel)
          → (result >>= λ path. complete_all runs relation rs (path ++ complete)) ≢ err out_of_fuel
      settle (ok path) h k = k path
      settle (err e) h k = λ x. h (ground arith)

-- With distinct identities, `assertAcyclicRunRelation` comes to a decision on every relation: the
-- bound of its loop is never met.
pub acyclic_check_terminates :
    (runs : List Run) (relation : Run → Option String)
    → distinct (map (λ (r : Run). r.id) runs) ≡ true
    → assert_acyclic runs relation ≢ err out_of_fuel
unfolding assert_acyclic
acyclic_check_terminates runs relation unique =
    let rest = complete_all-fuel runs relation runs [] (All-known runs unique) in ground arith
