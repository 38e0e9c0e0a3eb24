-- ===== src/Contract/Preview/Coalesce.antt =====
-- The loop of `coalescePreviewUpdates` (src/contract/preview.ts): its index of the last update of each
-- stream, and what a round does to the updates of one stream.
use mosoo_agent_driver.Base.{
  ℕ, zero, suc, ◌<◌, ◌≡◌, refl, inl, inr, true, false, Option, none, some, List, [], ◌∷◌, ◌++◌,
  length, get_elem?, set, filter, ltb, ◌==◌, str_eq→eq, str_eq_self, if◌then◌else◌, Bool-cases,
  arith,
}
use mosoo_agent_driver.Contract.Preview.{
  PreviewKey, same_key, PreviewUpdate, last_index, Coalescing,
}

pub same_key→eq : (a b : PreviewKey) → same_key a b ≡ true → a ≡ b
unfolding same_key
same_key→eq a b h = ground (
  arith,
  str_eq→eq a.item_id b.item_id,
  str_eq→eq a.stream_id b.stream_id,
  str_eq→eq a.channel b.channel,
)

pub same_key_self : (a : PreviewKey) → same_key a a ≡ true
unfolding same_key
same_key_self a =
    ground (arith, str_eq_self a.item_id, str_eq_self a.stream_id, str_eq_self a.channel)

-- the updates of one stream
abbrev pub of_key : PreviewKey → List PreviewUpdate → List PreviewUpdate
of_key k = filter (λ (u : PreviewUpdate). same_key u.key k)

pub of_key-append :
    (k : PreviewKey) (xs ys : List PreviewUpdate) → of_key k (xs ++ ys) ≡ of_key k xs ++ of_key k ys
of_key-append k [] ys = refl
of_key-append k (x ∷ xs) ys = ground (arith, of_key-append k xs ys)

pub get_elem?-set :
    (xs : List PreviewUpdate) (i j : ℕ) (x m : PreviewUpdate)
    → get_elem? xs i ≡ some x
    → get_elem? (set xs i m) j ≡ (if i == j then some m else get_elem? xs j)
get_elem?-set [] i j x m h = cc
get_elem?-set (y ∷ ys) zero zero x m h = refl
get_elem?-set (y ∷ ys) zero (suc j) x m h = ground arith
get_elem?-set (y ∷ ys) (suc i) zero x m h = ground arith
get_elem?-set (y ∷ ys) (suc i) (suc j) x m h = ground (arith, get_elem?-set ys i j x m h)

pub get_elem?-push :
    (xs : List PreviewUpdate) (j : ℕ) (u : PreviewUpdate)
    → get_elem? (xs ++ (u ∷ [])) j ≡ (if j == length xs then some u else get_elem? xs j)
get_elem?-push [] zero u = refl
get_elem?-push [] (suc j) u = ground arith
get_elem?-push (x ∷ xs) zero u = ground arith
get_elem?-push (x ∷ xs) (suc j) u = ground (arith, get_elem?-push xs j u)

pub get_elem?-length :
    (xs : List PreviewUpdate) (j : ℕ) (x : PreviewUpdate) → get_elem? xs j ≡ some x → j < length xs
get_elem?-length [] j x h = cc
get_elem?-length (y ∷ ys) zero x h = omega arith
get_elem?-length (y ∷ ys) (suc j) x h = omega (arith, get_elem?-length ys j x h)

-- nothing of a stream from a place on
abbrev pub NoneFrom : ℕ → PreviewKey → List PreviewUpdate → Type 0
NoneFrom i q output =
    (j : ℕ) (y : PreviewUpdate)
    → ltb j i ≡ false
    → get_elem? output j ≡ some y
    → same_key y.key q ≡ false

-- where the index says that the last update of a stream is
abbrev pub Located : PreviewKey → List PreviewUpdate → Option ℕ → Type 0
Located q output none = NoneFrom 0 q output
Located q output (some i) =
    (x : PreviewUpdate) × (get_elem? output i ≡ some x)
    × (same_key x.key q ≡ true)
    × NoneFrom (suc i) q output

abbrev pub IsIndexed : Coalescing → Type 0
IsIndexed c = (q : PreviewKey) → Located q c.output (last_index c.index q)

none-of_key : (q : PreviewKey) (xs : List PreviewUpdate) → NoneFrom 0 q xs → of_key q xs ≡ []
none-of_key q [] h = refl
none-of_key q (x ∷ xs) h =
    let first = h 0 x refl refl in
    let rest = none-of_key q xs (λ j y l e. h (suc j) y (ground arith) e) in ground arith

-- the last update of a stream, replaced
pub last-of_key :
    (q : PreviewKey) (xs : List PreviewUpdate) (i : ℕ) (x m : PreviewUpdate)
    → get_elem? xs i ≡ some x
    → same_key x.key q ≡ true
    → same_key m.key q ≡ true
    → NoneFrom (suc i) q xs
    → (front : List PreviewUpdate) × (of_key q xs ≡ front ++ (x ∷ []))
      × (of_key q (set xs i m) ≡ front ++ (m ∷ []))
last-of_key q [] i x m e h k n = cc
last-of_key q (y ∷ ys) zero x m e h k n =
    let rest = none-of_key q ys (λ j z l g. n (suc j) z (ground arith) g) in
    ([], ground arith, ground arith)
last-of_key q (y ∷ ys) (suc i) x m e h k n =
    let (front, p, r) = last-of_key q ys i x m e h k (λ j z l g. n (suc j) z (ground arith) g) in
    elim (Bool-cases (same_key y.key q)) [
      | inl own ↦ (y ∷ front, ground arith, ground arith)
      | inr other ↦ (front, ground arith, ground arith)
    ]

-- the other streams
pub other-of_key :
    (q : PreviewKey) (xs : List PreviewUpdate) (i : ℕ) (x m : PreviewUpdate)
    → get_elem? xs i ≡ some x
    → same_key x.key q ≡ false
    → same_key m.key q ≡ false
    → of_key q (set xs i m) ≡ of_key q xs
other-of_key q [] i x m e h k = cc
other-of_key q (y ∷ ys) zero x m e h k = ground arith
other-of_key q (y ∷ ys) (suc i) x m e h k = ground (arith, other-of_key q ys i x m e h k)
