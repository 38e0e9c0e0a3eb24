-- ===== src/Base/Tests.antt =====
-- Boolean tests on the native numbers and on optional values.
use Prim.Native.Nat.{ℕ, ◌≤◌, ◌<◌, compare, Ordering}
use Prim.Native.String.{String}
use mathlib.Core.Path.{◌≡◌, refl}
use mathlib.Core.Logic.{◌⊎◌, inl, inr}
use mathlib.Core.Bool.{Bool, true, false}
use mathlib.Core.Option.{Option, none, some}
use native.Mathlib.Omega.{arith}
use text.Mathlib.Text.{◌==◌ as str_eq}
use text.Mathlib.TextEquality.{eq_iff}

abbrev pub ltb : ℕ → ℕ → Bool
ltb a b = elim (compare a b) [ Ordering.lt ↦ true | _ ↦ false ]

abbrev pub leb : ℕ → ℕ → Bool
leb a b = elim (compare a b) [ Ordering.gt ↦ false | _ ↦ true ]

infix 50 ◌==◌
abbrev pub ◌==◌ : ℕ → ℕ → Bool
a == b = elim (compare a b) [ Ordering.eq ↦ true | _ ↦ false ]

infix 1 if◌then◌else◌
abbrev pub if◌then◌else◌ {ℓ} : {A : Type ℓ} → Bool → A → A → A
if true then x else y = x
if false then x else y = y

pub ltb→lt : (a b : ℕ) → ltb a b ≡ true → a < b
ltb→lt a b h = ground arith

pub leb→le : (a b : ℕ) → leb a b ≡ true → a ≤ b
leb→le a b h = ground arith

-- To split on a computed value and keep the equation.
pub Bool-cases : (b : Bool) → (b ≡ true) ⊎ (b ≡ false)
Bool-cases true = inl refl
Bool-cases false = inr refl

pub Option-cases {ℓ} : {A : Type ℓ} (o : Option A) → (o ≡ none) ⊎ ((a : A) × (o ≡ some a))
Option-cases none = inl refl
Option-cases (some a) = inr (a, refl)

abbrev pub is_some {ℓ} : {A : Type ℓ} → Option A → Bool
is_some none = false
is_some (some _) = true

-- `left ?? right`
abbrev pub or_else {ℓ} : {A : Type ℓ} → Option A → A → A
or_else none b = b
or_else (some a) b = a

-- `left === right` of two booleans
abbrev pub same_bool : Bool → Bool → Bool
same_bool true b = b
same_bool false true = false
same_bool false false = true

-- `left === right` of two optional strings
abbrev pub same_text? : Option String → Option String → Bool
same_text? none none = true
same_text? none (some _) = false
same_text? (some _) none = false
same_text? (some a) (some b) = str_eq a b

pub str_eq→eq : (a b : String) → str_eq a b ≡ true → a ≡ b
str_eq→eq a b h = (eq_iff a b).0 h

pub str_eq_self : (a : String) → str_eq a a ≡ true
str_eq_self a = (eq_iff a a).1 refl

pub differs_comm : (a b : String) → str_eq a b ≡ false → str_eq b a ≡ false
differs_comm a b h = elim (Bool-cases (str_eq b a)) [
  | inl e ↦ absurd (cc (str_eq→eq b a e, str_eq_self a, h))
  | inr e ↦ e
]

-- Equality of texts as a decision, for `hlevel`.
text_dec : (a b : String) (t : Bool) → str_eq a b ≡ t → Dec (a ≡ b)
text_dec a b true e = yes (str_eq→eq a b e)
text_dec a b false e = no (λ p. cc (str_eq_self a, p, e))

unfoldable pub String-discrete : Discrete String
unfolding text_dec
String-discrete a b = text_dec a b (str_eq a b) refl

-- `isDeepStrictEqual(a, b)`, and `a === b` of strings and enumerations
abbrev pub same {ℓ} : {A : Type ℓ} → Discrete A → A → A → Bool
same d a b = elim (d a b) [ yes _ ↦ true | no _ ↦ false ]

same_of_dec {ℓ} :
    {A : Type ℓ} (a b : A) (o : Dec (a ≡ b)) → elim o [ yes _ ↦ true | no _ ↦ false ] ≡ true → a ≡ b
same_of_dec a b (yes p) h = p
same_of_dec a b (no q) h = cc

pub same→eq {ℓ} : {A : Type ℓ} (d : Discrete A) (a b : A) → same d a b ≡ true → a ≡ b
same→eq d a b h = same_of_dec a b (d a b) h

pub same_self {ℓ} : {A : Type ℓ} (d : Discrete A) (a : A) → same d a a ≡ true
same_self d a = elim (d a a) as (λ o. elim o [ yes _ ↦ true | no _ ↦ false ] ≡ true) [
  | yes p ↦ refl
  | no q ↦ absurd (q refl)
]
