-- ===== src/Contract/Preview/Rounds.antt =====
-- One round of `coalescePreviewUpdates` (src/contract/preview.ts): the index stays right, and the
-- updates of a stream are left, extended or merged at their end.
use mosoo_agent_driver.Base.{
  ℕ, suc, ◌≡◌, refl, sym, ap, ◌∙◌, subst, inl, inr, Bool, true, false, Option, none, some, List, [],
  ◌∷◌, ◌++◌, length, get_elem?, set, append-nil, ◌==◌, if◌then◌else◌, Bool-cases, arith,
}
use mosoo_agent_driver.Contract.Preview.{
  PreviewKey, same_key, PreviewUpdate, PreviewOp, append, replace, merge_ops, merge_preview_updates,
  last_index, Coalescing, merged_at, pushed, written, coalesce_at, coalesce_one,
}
use mosoo_agent_driver.Contract.Preview.Coalesce.{
  same_key→eq, of_key, of_key-append, NoneFrom, Located, IsIndexed, last-of_key, other-of_key,
  get_elem?-set, get_elem?-push, get_elem?-length,
}

merge_ops-key :
    (x u m : PreviewUpdate) (op : PreviewOp)
    → same_key x.key u.key ≡ true
    → merge_ops x u op ≡ some m
    → m.key ≡ u.key
unfolding merge_ops
merge_ops-key x u m (append f) h e = ground (arith, same_key→eq x.key u.key h)
merge_ops-key x u m replace h e = ground (arith, same_key→eq x.key u.key h)

merge-key :
    (x u m : PreviewUpdate) → merge_preview_updates x u ≡ some m → (x.key ≡ u.key) × (m.key ≡ u.key)
unfolding merge_preview_updates
merge-key x u m e = elim (Bool-cases (same_key x.key u.key)) [
  | inl own ↦ (same_key→eq x.key u.key own, merge_ops-key x u m u.op own (ground arith))
  | inr other ↦ cc
]

-- what a push and a replacement leave of a place
NoneFrom-push :
    (q : PreviewKey) (xs : List PreviewUpdate) (u : PreviewUpdate) (i : ℕ)
    → same_key u.key q ≡ false
    → NoneFrom i q xs
    → NoneFrom i q (xs ++ (u ∷ []))
NoneFrom-push q xs u i other n j y l g = elim (Bool-cases (j == length xs)) [
  | inl last ↦
      let same_update : u ≡ y = ground (arith, get_elem?-push xs j u) in
      subst (λ z. same_key z.key q ≡ false) same_update other
  | inr before ↦ n j y l (ground (arith, get_elem?-push xs j u))
]

NoneFrom-end :
    (q : PreviewKey) (xs : List PreviewUpdate) (u : PreviewUpdate)
    → NoneFrom (suc (length xs)) q (xs ++ (u ∷ []))
NoneFrom-end q xs u j y l g =
    let past : get_elem? xs j ≡ some y = ground (arith, get_elem?-push xs j u) in
    absurd (ground (arith, get_elem?-length xs j y past))

NoneFrom-set :
    (q : PreviewKey) (xs : List PreviewUpdate) (i p : ℕ) (x m : PreviewUpdate)
    → get_elem? xs i ≡ some x
    → m.key ≡ x.key
    → NoneFrom p q xs
    → NoneFrom p q (set xs i m)
NoneFrom-set q xs i p x m e k n j y l g = elim (Bool-cases (i == j)) [
  | inl own ↦
      let same_update : m ≡ y = ground (arith, get_elem?-set xs i j x m e) in
      let there : get_elem? xs j ≡ some x = ground arith in
      let clear = n j x l there in
      ap (λ z. same_key z q) (ap PreviewUpdate.key (sym same_update) ∙ k) ∙ clear
  | inr other ↦ n j y l (ground (arith, get_elem?-set xs i j x m e))
]

pushed-Located :
    (q : PreviewKey) (xs : List PreviewUpdate) (u : PreviewUpdate) (o : Option ℕ)
    → same_key u.key q ≡ false
    → Located q xs o
    → Located q (xs ++ (u ∷ [])) o
pushed-Located q xs u none other h = NoneFrom-push q xs u 0 other h
pushed-Located q xs u (some i) other (x, at, own, n) = (
  x,
  ground (arith, get_elem?-push xs i u, get_elem?-length xs i x at),
  own,
  NoneFrom-push q xs u (suc i) other n,
)

set-Located :
    (q : PreviewKey) (xs : List PreviewUpdate) (i : ℕ) (x m : PreviewUpdate) (o : Option ℕ)
    → get_elem? xs i ≡ some x
    → m.key ≡ x.key
    → Located q xs o
    → Located q (set xs i m) o
set-Located q xs i x m none e k h = NoneFrom-set q xs i 0 x m e k h
set-Located q xs i x m (some p) e k (z, at, own, n) = elim (Bool-cases (i == p)) [
  | inl here ↦
      let same_update : x ≡ z = ground arith in
      (
        m,
        ground (arith, get_elem?-set xs i p x m e),
        ap (λ l. same_key l q) (k ∙ ap PreviewUpdate.key same_update) ∙ own,
        NoneFrom-set q xs i (suc p) x m e k n,
      )
  | inr elsewhere ↦
      (z, ground (arith, get_elem?-set xs i p x m e), own, NoneFrom-set q xs i (suc p) x m e k n)
]

pushed-IsIndexed : (c : Coalescing) (u : PreviewUpdate) → IsIndexed c → IsIndexed (pushed c u)
unfolding last_index
pushed-IsIndexed c u h q = by_key (same_key u.key q) refl
  where
    by_key :
        (b : Bool)
        → same_key u.key q ≡ b
        → Located q
            (c.output ++ (u ∷ []))
            (if b then some (length c.output) else last_index c.index q)
    by_key true own = (
      u,
      ground (arith, get_elem?-push c.output (length c.output) u),
      own,
      NoneFrom-end q c.output u,
    )
    by_key false other = pushed-Located q c.output u (last_index c.index q) other (h q)

-- What a round does to the updates of the stream `k`.
pub data Round (k : PreviewKey) (c c' : Coalescing) (u : PreviewUpdate) : Type 0 where
  other_stream : same_key u.key k ≡ false → of_key k c'.output ≡ of_key k c.output → Round k c c' u
  added :
      same_key u.key k ≡ true → of_key k c'.output ≡ of_key k c.output ++ (u ∷ []) → Round k c c' u
  merged :
      (front : List PreviewUpdate) (x m : PreviewUpdate)
      → same_key u.key k ≡ true
      → of_key k c.output ≡ front ++ (x ∷ [])
      → of_key k c'.output ≡ front ++ (m ∷ [])
      → merge_preview_updates x u ≡ some m
      → Round k c c' u

pushed-Round : (k : PreviewKey) (c : Coalescing) (u : PreviewUpdate) → Round k c (pushed c u) u
pushed-Round k c u = elim (Bool-cases (same_key u.key k)) [
  | inl own ↦ added own (of_key-append k c.output (u ∷ []) ∙ ground arith)
  | inr other ↦
      other_stream other
        (of_key-append k c.output (u ∷ []) ∙ ground (arith, append-nil (of_key k c.output)))
]

set-Round :
    (k : PreviewKey) (c : Coalescing) (u x m : PreviewUpdate) (i : ℕ)
    → get_elem? c.output i ≡ some x
    → merge_preview_updates x u ≡ some m
    → NoneFrom (suc i) u.key c.output
    → Round k c (record c { output = set c.output i m }) u
set-Round k c u x m i at merges n =
    let (kx, km) = merge-key x u m merges in
    elim (Bool-cases (same_key u.key k)) [
      | inl own ↦
          let (front, p, r) =
            last-of_key k c.output i x m at (ap (λ z. same_key z k) kx ∙ own)
              (ap (λ z. same_key z k) km ∙ own)
              (subst (λ z. NoneFrom (suc i) z c.output) (same_key→eq u.key k own) n) in
          merged front x m own p r merges
      | inr other ↦ other_stream other (
          other-of_key k c.output i x m at (ap (λ z. same_key z k) kx ∙ other)
            (ap (λ z. same_key z k) km ∙ other))
    ]

-- A round keeps the index, and is a `Round` for each stream.
pub coalesce_one-IsIndexed :
    (c : Coalescing) (u : PreviewUpdate)
    → IsIndexed c
    → IsIndexed (coalesce_one c u) × ((k : PreviewKey) → Round k c (coalesce_one c u) u)
unfolding coalesce_one
coalesce_one-IsIndexed c u h = by_place (last_index c.index u.key) (h u.key)
  where
    by_merge :
        (i : ℕ) (x : PreviewUpdate) (o : Option PreviewUpdate)
        → get_elem? c.output i ≡ some x
        → NoneFrom (suc i) u.key c.output
        → merge_preview_updates x u ≡ o
        → IsIndexed (written c u i o) × ((k : PreviewKey) → Round k c (written c u i o) u)
    by_merge i x none at n e = (pushed-IsIndexed c u h, λ k. pushed-Round k c u)
    by_merge i x (some m) at n e =
        let (kx, km) = merge-key x u m e in
        (
          λ q. set-Located q c.output i x m (last_index c.index q) at (km ∙ sym kx) (h q),
          λ k. set-Round k c u x m i at e n,
        )

    by_place :
        (o : Option ℕ)
        → Located u.key c.output o
        → IsIndexed (coalesce_at c u o) × ((k : PreviewKey) → Round k c (coalesce_at c u o) u)
    by_place none located = (pushed-IsIndexed c u h, λ k. pushed-Round k c u)
    by_place (some i) (x, at, own, n) =
        let found : merged_at c.output u i ≡ merge_preview_updates x u = rw (at, merged_at) in
        subst
          (λ o. IsIndexed (written c u i o) × ((k : PreviewKey) → Round k c (written c u i o) u))
          (sym found) (by_merge i x (merge_preview_updates x u) at n refl)
