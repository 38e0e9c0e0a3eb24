-- ===== src/Base/Results.antt =====
-- A call that may throw returns a `Result`: the thrown error, or the value.
use mathlib.Core.Path.{◌≡◌, refl}
use mathlib.Core.Bool.{Bool, true, false}
use mathlib.Core.Option.{Option, none, some}
use mathlib.Core.List.{List, [], ◌∷◌}
use mosoo_agent_driver.Base.Lists.{All}

pub data Result {ℓ κ} (E : Type ℓ) (A : Type κ) : Type (ℓ ⊔ κ) where
  ok : A → Result E A
  err : E → Result E A

-- `if (!condition) throw error`
abbrev pub guard {ℓ} : {E : Type ℓ} → Bool → E → Result E (Unit {0})
guard false error = err error
guard true error = ok tt

infixl 5 ◌>>=◌ ◌>>◌
abbrev pub ◌>>=◌ {ℓ κ λ'} :
    {E : Type ℓ} {A : Type κ} {B : Type λ'} → Result E A → (A → Result E B) → Result E B
ok a >>= f = f a
err e >>= f = err e

abbrev pub ◌>>◌ {ℓ κ} : {E : Type ℓ} {B : Type κ} → Result E (Unit {0}) → Result E B → Result E B
m >> k = m >>= λ _. k

-- a value that has to be there
abbrev pub require {ℓ κ} : {E : Type ℓ} {A : Type κ} → Option A → E → Result E A
require none e = err e
require (some a) e = ok a

-- What comes before and after in a call that returns.
pub >>=-eq-ok {ℓ κ λ'} :
    {E : Type ℓ} {A : Type κ} {B : Type λ'} (first : Result E A) (rest : A → Result E B) {out : B}
    → (first >>= rest) ≡ ok out
    → (value : A) × (first ≡ ok value) × (rest value ≡ ok out)
>>=-eq-ok (err e) rest returns = cc
>>=-eq-ok (ok value) rest returns = (value, refl, returns)

pub guard-eq-ok {ℓ κ} :
    {E : Type ℓ} {B : Type κ} (b : Bool) (e : E) (k : Result E B) {r : B}
    → (guard b e >> k) ≡ ok r
    → (b ≡ true) × (k ≡ ok r)
guard-eq-ok true e k h = (refl, h)
guard-eq-ok false e k h = cc

-- a check for each entry of a list, in order
abbrev pub for_each {ℓ κ} :
    {E : Type ℓ} {A : Type κ} → (A → Result E (Unit {0})) → List A → Result E (Unit {0})
for_each f [] = ok tt
for_each f (x ∷ xs) = f x >> for_each f xs

abbrev pub is_ok {ℓ κ} : {E : Type ℓ} {A : Type κ} → Result E A → Bool
is_ok (ok a) = true
is_ok (err e) = false

pub require-eq-ok {ℓ κ} :
    {E : Type ℓ} {A : Type κ} (o : Option A) (e : E) {a : A} → require o e ≡ ok a → o ≡ some a
require-eq-ok none e h = cc
require-eq-ok (some a) e h = cc

pub for_each-eq-ok {ℓ κ} :
    {E : Type ℓ} {A : Type κ} (f : A → Result E (Unit {0})) (xs : List A) (u : Unit {0})
    → for_each f xs ≡ ok u
    → All (λ x. f x ≡ ok tt) xs
for_each-eq-ok f [] u h = tt
for_each-eq-ok f (x ∷ xs) u h =
    let (v, e, k) = >>=-eq-ok (f x) (λ _. for_each f xs) h in (e, for_each-eq-ok f xs u k)
