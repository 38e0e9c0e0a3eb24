-- ===== src/Contract/Common/Order.antt =====
-- The order of timestamps (`compareTimestamps` of src/contract/common.ts).
use Prim.Native.Nat.{◌^◌, compare, Ordering}
use mosoo_agent_driver.Base.{
  ℕ, zero, suc, ◌+◌, ◌*◌, ◌<◌, All, ◌≤◌, ◌≡◌, refl, sym, ap, ◌∙◌, false, List, [], ◌∷◌, ◌++◌,
  length, arith,
}
use mosoo_agent_driver.Contract.Common.{
  Timestamp, Comparison, earlier, equal, later, replicate, pad_end, compare_digits, max_length,
  compare_timestamps, is_earlier, is_later,
}

-- the comparison of one number, then of the rest
abbrev step : ℕ → ℕ → Comparison → Comparison
step a b rest = elim (compare a b) [
  | Ordering.lt ↦ earlier
  | Ordering.eq ↦ rest
  | Ordering.gt ↦ later
]

-- digits of a fraction, with those that are missing at the end read as 0
unfoldable fractions : List ℕ → List ℕ → Comparison
fractions [] [] = equal
fractions [] (b ∷ bs) = step 0 b (fractions [] bs)
fractions (a ∷ as') [] = step a 0 (fractions as' [])
fractions (a ∷ as') (b ∷ bs) = step a b (fractions as' bs)

zeros : (n : ℕ) → compare_digits (replicate n 0) (replicate n 0) ≡ equal
unfolding compare_digits
zeros zero = refl
zeros (suc n) = zeros n

-- `pad_end`, digit by digit
abbrev pads : List ℕ → ℕ → List ℕ
pads [] w = replicate w 0
pads (x ∷ xs) zero = x ∷ xs
pads (x ∷ xs) (suc w) = x ∷ pads xs w

pad_end-pads : (xs : List ℕ) (w : ℕ) → length xs ≤ w → pad_end xs w ≡ pads xs w
pad_end-pads [] w h = ap (λ n. replicate n 0) (omega arith)
pad_end-pads (x ∷ xs) zero h = absurd (omega arith)
pad_end-pads (x ∷ xs) (suc w) h =
    ap (λ n. x ∷ (xs ++ replicate n 0)) (omega arith)
    ∙ ap (λ r. x ∷ r) (pad_end-pads xs w (omega arith))

padded :
    (a b : List ℕ) (w : ℕ)
    → length a ≤ w
    → length b ≤ w
    → compare_digits (pads a w) (pads b w) ≡ fractions a b
unfolding compare_digits fractions
padded [] [] w h k = zeros w
padded [] (b ∷ bs) zero h k = absurd (omega arith)
padded [] (b ∷ bs) (suc w) h k = ap (step 0 b) (padded [] bs w (omega arith) (omega arith))
padded (a ∷ as') [] zero h k = absurd (omega arith)
padded (a ∷ as') [] (suc w) h k = ap (step a 0) (padded as' [] w (omega arith) (omega arith))
padded (a ∷ as') (b ∷ bs) zero h k = absurd (omega arith)
padded (a ∷ as') (b ∷ bs) (suc w) h k = ap (step a b) (padded as' bs w (omega arith) (omega arith))

compare-fractions :
    (a b : Timestamp)
    → compare_timestamps a b ≡ step a.second b.second (fractions a.fraction b.fraction)
unfolding compare_timestamps
compare-fractions a b =
    let w = max_length a.fraction b.fraction in
    let (long_a, long_b) = longest a.fraction b.fraction in
    ap (step a.second b.second) (
      cc (
        pad_end-pads a.fraction w long_a,
        pad_end-pads b.fraction w long_b,
        padded a.fraction b.fraction w long_a long_b,
      ))
  where
    longest : (x y : List ℕ) → (length x ≤ max_length x y) × (length y ≤ max_length x y)
    longest x y = ground arith

-- what two comparisons say of the third
abbrev Chains : Comparison → Comparison → Comparison → Type 0
Chains x y z = is_earlier x ≡ false → is_earlier y ≡ false → is_earlier z ≡ false

step-Chains :
    (a b c : ℕ) (x y z : Comparison) → Chains x y z → Chains (step a b x) (step b c y) (step a c z)
step-Chains a b c x y z h k l = ground arith

fractions-Chains : (a b c : List ℕ) → Chains (fractions a b) (fractions b c) (fractions a c)
unfolding fractions
fractions-Chains [] [] [] h k = refl
fractions-Chains [] [] (c ∷ cs) h k = k
fractions-Chains [] (b ∷ bs) [] h k = refl
fractions-Chains [] (b ∷ bs) (c ∷ cs) h k = step-Chains 0 b c _ _ _ (fractions-Chains [] bs cs) h k
fractions-Chains (a ∷ as') [] [] h k = h
fractions-Chains (a ∷ as') [] (c ∷ cs) h k =
    step-Chains a 0 c _ _ _ (fractions-Chains as' [] cs) h k
fractions-Chains (a ∷ as') (b ∷ bs) [] h k =
    step-Chains a b 0 _ _ _ (fractions-Chains as' bs []) h k
fractions-Chains (a ∷ as') (b ∷ bs) (c ∷ cs) h k =
    step-Chains a b c _ _ _ (fractions-Chains as' bs cs) h k

-- the other way round
abbrev pub flip : Comparison → Comparison
flip earlier = later
flip equal = equal
flip later = earlier

step-flip : (a b : ℕ) (x y : Comparison) → x ≡ flip y → step a b x ≡ flip (step b a y)
step-flip a b x y h = ground arith

fractions-flip : (a b : List ℕ) → fractions a b ≡ flip (fractions b a)
unfolding fractions
fractions-flip [] [] = refl
fractions-flip [] (b ∷ bs) = step-flip 0 b _ _ (fractions-flip [] bs)
fractions-flip (a ∷ as') [] = step-flip a 0 _ _ (fractions-flip as' [])
fractions-flip (a ∷ as') (b ∷ bs) = step-flip a b _ _ (fractions-flip as' bs)

compare_timestamps-orders :
    (a b c : Timestamp)
    → (compare_timestamps a b ≡ flip (compare_timestamps b a))
      × (is_earlier (compare_timestamps a b) ≡ false
          → is_earlier (compare_timestamps b c) ≡ false
          → is_earlier (compare_timestamps a c) ≡ false)
compare_timestamps-orders a b c =
    let ab = compare-fractions a b in
    let ba = compare-fractions b a in
    let bc = compare-fractions b c in
    let ac = compare-fractions a c in
    (
      ab
          ∙ step-flip a.second b.second _ _ (fractions-flip a.fraction b.fraction)
          ∙ ap flip (sym ba),
      λ h k.
          ap is_earlier ac
          ∙ step-Chains a.second b.second c.second _ _ _
              (fractions-Chains a.fraction b.fraction c.fraction) (ap is_earlier (sym ab) ∙ h)
              (ap is_earlier (sym bc) ∙ k),
    )

-- The fraction in units of 10 ^ -w, of the digits that are there and zeros after them.
abbrev pub fraction_in : ℕ → List ℕ → ℕ
fraction_in zero ds = 0
fraction_in (suc w) [] = 0
fraction_in (suc w) (d ∷ ds) = d * 10 ^ w + fraction_in w ds

-- the instant in units of 10 ^ -w of a second
abbrev pub instant_in : ℕ → Timestamp → ℕ
instant_in w t = t.second * 10 ^ w + fraction_in w t.fraction

-- decimal digits, at most w of them
abbrev pub AreDigits : ℕ → List ℕ → Type 0
AreDigits w ds = (length ds ≤ w) × All (λ d. d < 10) ds

-- how two numbers compare
abbrev pub compare_numbers : ℕ → ℕ → Comparison
compare_numbers a b = step a b equal

AreDigits-rest : (w d : ℕ) (ds : List ℕ) → AreDigits (suc w) (d ∷ ds) → AreDigits w ds
AreDigits-rest w d ds h = (omega (arith, h.0), h.1.1)

power-positive : (w : ℕ) → 1 ≤ 10 ^ w
power-positive zero = omega arith
power-positive (suc w) = let rest = power-positive w in grind arith

fraction_in-empty : (w : ℕ) → fraction_in w [] ≡ 0
fraction_in-empty zero = refl
fraction_in-empty (suc w) = refl

fraction_in-lt : (w : ℕ) (ds : List ℕ) → AreDigits w ds → fraction_in w ds < 10 ^ w
fraction_in-lt zero ds h = omega arith
fraction_in-lt (suc w) [] h = power-positive (suc w)
fraction_in-lt (suc w) (d ∷ ds) h =
    let rest = fraction_in-lt w ds (AreDigits-rest w d ds h) in let digit = h.1.0 in grind arith

-- one place before others, which are less than a unit of it
step-compare_numbers :
    (a b x y p : ℕ)
    → x < p
    → y < p
    → step a b (compare_numbers x y) ≡ compare_numbers (a * p + x) (b * p + y)
step-compare_numbers a b x y p h k =
    let below = next_multiple a b p in
    let above = next_multiple b a p in
    let same : a ≡ b → a * p ≡ b * p = λ e. ap (λ n. n * p) e in ground arith
  where
    next_multiple : (m n p : ℕ) → m < n → m * p + p ≤ n * p
    next_multiple m n p h = grind arith

fractions-compare_numbers :
    (w : ℕ) (a b : List ℕ)
    → AreDigits w a
    → AreDigits w b
    → fractions a b ≡ compare_numbers (fraction_in w a) (fraction_in w b)
unfolding fractions
fractions-compare_numbers zero [] [] h k = refl
fractions-compare_numbers zero (a ∷ as') b h k = absurd (omega (arith, h.0))
fractions-compare_numbers zero [] (b ∷ bs) h k = absurd (omega (arith, k.0))
fractions-compare_numbers (suc w) [] [] h k = refl
fractions-compare_numbers (suc w) [] (b ∷ bs) h k =
    ap (step 0 b) (fractions-compare_numbers w [] bs (omega arith, tt) (AreDigits-rest w b bs k))
    ∙ step-compare_numbers 0 b _ _ (10 ^ w) (fraction_in-lt w [] (omega arith, tt))
        (fraction_in-lt w bs (AreDigits-rest w b bs k))
    ∙ ap (λ n. compare_numbers n (fraction_in (suc w) (b ∷ bs)))
        (omega (arith, fraction_in-empty w))
fractions-compare_numbers (suc w) (a ∷ as') [] h k =
    ap (step a 0) (fractions-compare_numbers w as' [] (AreDigits-rest w a as' h) (omega arith, tt))
    ∙ step-compare_numbers a 0 _ _ (10 ^ w) (fraction_in-lt w as' (AreDigits-rest w a as' h))
        (fraction_in-lt w [] (omega arith, tt))
    ∙ ap (compare_numbers (fraction_in (suc w) (a ∷ as'))) (omega (arith, fraction_in-empty w))
fractions-compare_numbers (suc w) (a ∷ as') (b ∷ bs) h k =
    let x = AreDigits-rest w a as' h in
    let y = AreDigits-rest w b bs k in
    ap (step a b) (fractions-compare_numbers w as' bs x y)
    ∙ step-compare_numbers a b _ _ (10 ^ w) (fraction_in-lt w as' x) (fraction_in-lt w bs y)

-- `compareTimestamps` compares the instants by value, however many digits the fractions have: in units
-- of 10 ^ -w, for any w that holds the digits of both, its answer is that of the two numbers, so zeros
-- at the end of a fraction do not count. With the arguments exchanged the answer is reversed, and if
-- the first is not before the second and the second is not before a third then the first is not before
-- the third.
pub timestamps_are_ordered :
    (w : ℕ) (a b c : Timestamp)
    → AreDigits w a.fraction
    → AreDigits w b.fraction
    → (compare_timestamps a b ≡ compare_numbers (instant_in w a) (instant_in w b))
      × (compare_timestamps a b ≡ flip (compare_timestamps b a))
      × (is_earlier (compare_timestamps a b) ≡ false
          → is_earlier (compare_timestamps b c) ≡ false
          → is_earlier (compare_timestamps a c) ≡ false)
timestamps_are_ordered w a b c h k =
    let (flips, chains) = compare_timestamps-orders a b c in
    (
      compare-fractions a b
          ∙ ap (step a.second b.second) (fractions-compare_numbers w a.fraction b.fraction h k)
          ∙ step-compare_numbers a.second b.second _ _ (10 ^ w) (fraction_in-lt w a.fraction h)
              (fraction_in-lt w b.fraction k),
      flips,
      chains,
    )

-- The first timestamp is not after the second.
abbrev pub Before : Timestamp → Timestamp → Type 0
Before a b = is_later (compare_timestamps a b) ≡ false

later-flip :
    (a b : Timestamp) → is_later (compare_timestamps a b) ≡ is_earlier (compare_timestamps b a)
later-flip a b = let (flipped, chain) = compare_timestamps-orders a b a in ground arith

pub Before-trans : (a b c : Timestamp) → Before a b → Before b c → Before a c
Before-trans a b c h k =
    let (flipped, chain) = compare_timestamps-orders c b a in
    later-flip a c ∙ chain (sym (later-flip b c) ∙ k) (sym (later-flip a b) ∙ h)

pub Before-self : (a : Timestamp) → Before a a
Before-self a = let (flipped, chain) = compare_timestamps-orders a a a in ground arith

pub not_earlier-Before :
    (a b : Timestamp) → is_earlier (compare_timestamps b a) ≡ false → Before a b
not_earlier-Before a b h = later-flip a b ∙ h
