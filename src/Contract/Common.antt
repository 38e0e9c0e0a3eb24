-- ===== src/Contract/Common.antt =====
-- Timestamps, errors and admission limits (src/contract/common.ts, and the error codes of
-- src/contract/invariant.ts).
pub mod Ids
pub mod Order
use Prim.Native.Nat.{compare, Ordering}
use mosoo_agent_driver.Base.{
  ℕ, zero, suc, ◌-◌, String, Bool, true, false, not, Option, none, some, List, [], ◌∷◌, ◌++◌, leb,
  length, if◌then◌else◌, String-discrete, ℕ_discrete, Json, Result, ok, guard,
}

-- The codes of a `ContractInvariantError`; then a value that its schema refuses, a limit that is
-- passed (`RangeError`), and a loop that its bound cuts off, which never happens.
pub data ContractError : Type 0 where
  duplicate_entity immutable_entity invalid_reference invalid_transition : ContractError
  revision_gap session_mismatch stale_revision unsupported : ContractError
  schema_error range_error out_of_fuel : ContractError

-- A timestamp's text, with the two parts that `timestampParts` reads from it: the second, counted
-- from a point before the year 0, and the digits of the fraction.
pub record Timestamp : Type 0 where
  pub text : String
  pub second : ℕ
  pub fraction : List ℕ

pub Timestamp-discrete : Discrete Timestamp
Timestamp-discrete = hlevel (String-discrete, ℕ_discrete)

-- A finite number that the program only compares: its rank among the finite doubles.
abbrev pub Number : Type 0
Number = ℕ

pub data Comparison : Type 0 where
  earlier equal later : Comparison

abbrev pub replicate {ℓ} : {A : Type ℓ} → ℕ → A → List A
replicate zero a = []
replicate (suc n) a = a ∷ replicate n a

-- `padEnd(width, "0")`, over digits
abbrev pub pad_end : List ℕ → ℕ → List ℕ
pad_end digits width = digits ++ replicate (width - length digits) 0

-- `left === right ? 0 : left < right ? -1 : 1`, of texts of digits
unfoldable pub compare_digits : List ℕ → List ℕ → Comparison
compare_digits [] [] = equal
compare_digits [] (b ∷ bs) = earlier
compare_digits (a ∷ as') [] = later
compare_digits (a ∷ as') (b ∷ bs) =
    let rest = compare_digits as' bs in
    elim (compare a b) [ Ordering.lt ↦ earlier | Ordering.eq ↦ rest | Ordering.gt ↦ later ]

abbrev pub max_length : List ℕ → List ℕ → ℕ
max_length a b = if leb (length a) (length b) then length b else length a

unfoldable pub compare_timestamps : Timestamp → Timestamp → Comparison
unfolding compare_digits
compare_timestamps left right =
    let width = max_length left.fraction right.fraction in
    elim (compare left.second right.second) [
      | Ordering.lt ↦ earlier
      | Ordering.gt ↦ later
      | Ordering.eq ↦ compare_digits (pad_end left.fraction width) (pad_end right.fraction width)
    ]

abbrev pub is_earlier : Comparison → Bool
is_earlier earlier = true
is_earlier _ = false

abbrev pub is_later : Comparison → Bool
is_later later = true
is_later _ = false

-- the checks of src/contract/invariant.ts
unfoldable pub assert_not_before : Option Timestamp → Timestamp → Result ContractError (Unit {0})
assert_not_before none lower = ok tt
assert_not_before (some t) lower =
    guard (not (is_earlier (compare_timestamps t lower))) invalid_transition

unfoldable pub assert_not_after : Option Timestamp → Timestamp → Result ContractError (Unit {0})
assert_not_after none upper = ok tt
assert_not_after (some t) upper =
    guard (not (is_later (compare_timestamps t upper))) invalid_transition

pub record ProtocolError : Type 0 where
  pub code : String
  pub message : String
  pub retryable : Bool
  pub details : Option Json

pub ProtocolError-discrete : Discrete ProtocolError
ProtocolError-discrete = hlevel String-discrete
