-- ===== src/Contract/RunGraph.antt =====
-- `assertAcyclicRunRelation` (src/contract/state-validation.ts): from each run it follows a relation
-- to another run, up to a run that an earlier round completed, and refuses a chain that comes back
-- to itself.
pub mod Acyclic
pub mod Fuel
pub mod Complete
use mosoo_agent_driver.Base.{
  ℕ, zero, suc, String, Bool, true, false, Option, none, some, List, [], ◌∷◌, ◌++◌, length, find,
  if◌then◌else◌, str_eq, Result, ok, err, ◌>>=◌, ◌>>◌,
}
use mosoo_agent_driver.Contract.Common.{ContractError, invalid_transition, out_of_fuel}
use mosoo_agent_driver.Contract.State.{Run}
use mosoo_agent_driver.Contract.Transition.{includes}

-- `runsById.get(id)`; the identities are unique by then
abbrev pub run_by_id : List Run → String → Option Run
run_by_id runs id = find (λ (r : Run). str_eq r.id id) runs

abbrev pub related : List Run → Option String → Option Run
related runs none = none
related runs (some id) = run_by_id runs id

-- The inner loop: the identities it visits, in order. A chain visits each run once, so the number of
-- runs and one is fuel enough.
unfoldable pub chase :
    ℕ
    → List Run
    → (Run → Option String)
    → List String
    → List String
    → Option Run
    → Result ContractError (List String)
chase fuel runs relation complete visiting none = ok []
chase zero runs relation complete visiting (some current) = err out_of_fuel
chase (suc fuel) runs relation complete visiting (some current) =
    let rest =
      chase fuel runs relation complete (current.id ∷ visiting) (related runs (relation current)) in
    if includes complete current.id
    then ok []
    else if includes visiting current.id
    then err invalid_transition
    else (do path ← rest; ok (current.id ∷ path))

-- The outer loop over the roots; the completed identities.
unfoldable pub complete_all :
    List Run → (Run → Option String) → List Run → List String → Result ContractError (List String)
unfolding chase
complete_all runs relation [] complete = ok complete
complete_all runs relation (root ∷ roots) complete = do
  path ← chase (suc (length runs)) runs relation complete [] (some root)
  complete_all runs relation roots (path ++ complete)

unfoldable pub assert_acyclic : List Run → (Run → Option String) → Result ContractError (Unit {0})
unfolding complete_all
assert_acyclic runs relation = do complete ← complete_all runs relation runs []; ok tt
