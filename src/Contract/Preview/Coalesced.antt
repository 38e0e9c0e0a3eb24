-- ===== src/Contract/Preview/Coalesced.antt =====
-- What `coalescePreviewUpdates` (src/contract/preview.ts) keeps: a reader of the coalesced updates
-- comes to the state that the updates themselves lead to.
use mosoo_agent_driver.Base.{
  ℕ, ◌≡◌, refl, sym, ap, ◌∙◌, subst, String, true, false, Option, none, some, List, [], ◌∷◌, ◌++◌,
  All, arith,
}
use mosoo_agent_driver.Contract.Preview.{
  PreviewKey, same_key, PreviewUpdate, PreviewOp, append, replace, update_schema,
  PreviewStreamState, is_duplicate, apply_preview_update, merge_ops, merge_preview_updates,
  Coalescing, coalesce_one, coalesce_from, coalesce_preview_updates, last_index,
}
use mosoo_agent_driver.Contract.Preview.Streams.{after, merge_keeps_state}
use mosoo_agent_driver.Contract.Preview.Coalesce.{of_key, IsIndexed}
use mosoo_agent_driver.Contract.Preview.Rounds.{
  Round, other_stream, added, merged, coalesce_one-IsIndexed,
}

-- a reader of one stream
unfoldable pub read : Option PreviewStreamState → List PreviewUpdate → Option PreviewStreamState
read s [] = s
read s (u ∷ us) = read (after s u) us

-- no update is one that the reader has already, each at its turn
abbrev pub AreNew : Option PreviewStreamState → List PreviewUpdate → Type 0
AreNew s [] = Unit
AreNew s (u ∷ us) = (is_duplicate s u.op u.through_sequence ≡ false) × AreNew (after s u) us

read-append :
    (s : Option PreviewStreamState) (xs ys : List PreviewUpdate)
    → read s (xs ++ ys) ≡ read (read s xs) ys
unfolding read
read-append s [] ys = refl
read-append s (x ∷ xs) ys = read-append (after s x) xs ys

AreNew-append :
    (s : Option PreviewStreamState) (xs ys : List PreviewUpdate)
    → AreNew s (xs ++ ys)
    → AreNew s xs × AreNew (read s xs) ys
unfolding read
AreNew-append s [] ys h = (tt, h)
AreNew-append s (x ∷ xs) ys h = let (l, r) = AreNew-append (after s x) xs ys h.1 in ((h.0, l), r)

append-AreNew :
    (s : Option PreviewStreamState) (xs ys : List PreviewUpdate)
    → AreNew s xs
    → AreNew (read s xs) ys
    → AreNew s (xs ++ ys)
unfolding read
append-AreNew s [] ys h k = k
append-AreNew s (x ∷ xs) ys h k = (h.0, append-AreNew (after s x) xs ys h.1 k)

-- A merge of two new updates is new.
merged_cases :
    (s : Option PreviewStreamState) (k l : PreviewKey) (op_x op_u : PreviewOp) (b c : ℕ)
    (tx tu : String) (m : PreviewUpdate)
    → update_schema (record { key = l; op = op_u; through_sequence = c; text = tu }) ≡ true
    → merge_ops
        (record { key = k; op = op_x; through_sequence = b; text = tx })
        (record { key = l; op = op_u; through_sequence = c; text = tu })
        op_u
      ≡ some m
    → is_duplicate s op_x b ≡ false
    → is_duplicate (after s (record { key = k; op = op_x; through_sequence = b; text = tx })) op_u c
      ≡ false
    → is_duplicate s m.op m.through_sequence ≡ false
unfolding is_duplicate merge_ops apply_preview_update update_schema
merged_cases none k l (append f) replace b c tx tu m v e h d = ground arith
merged_cases none k l replace replace b c tx tu m v e h d = ground arith
merged_cases none k l (append f) (append g) b c tx tu m v e h d = ground arith
merged_cases none k l replace (append g) b c tx tu m v e h d = ground arith
merged_cases (some s) k l (append f) replace b c tx tu m v e h d = ground arith
merged_cases (some s) k l replace replace b c tx tu m v e h d = ground arith
merged_cases (some s) k l (append f) (append g) b c tx tu m v e h d = ground arith
merged_cases (some s) k l replace (append g) b c tx tu m v e h d = ground arith

merged_is_new :
    (s : Option PreviewStreamState) (x u m : PreviewUpdate)
    → update_schema u ≡ true
    → merge_preview_updates x u ≡ some m
    → is_duplicate s x.op x.through_sequence ≡ false
    → is_duplicate (after s x) u.op u.through_sequence ≡ false
    → is_duplicate s m.op m.through_sequence ≡ false
unfolding merge_preview_updates
merged_is_new s x u m v e h k =
    merged_cases s x.key u.key x.op u.op x.through_sequence u.through_sequence x.text u.text m v
      (ground arith) h k

-- What a reader of the stream sees of a round that adds an update, and of one that merges it.
abbrev Reads :
    Option PreviewStreamState
    → List PreviewUpdate
    → List PreviewUpdate
    → PreviewUpdate
    → List PreviewUpdate
    → Type 0
Reads s out out' u rest =
    AreNew s out' × (read s out' ≡ after (read s out) u) × AreNew (read s out') rest

added-Reads :
    (s : Option PreviewStreamState) (out out' : List PreviewUpdate) (u : PreviewUpdate)
    (rest : List PreviewUpdate)
    → out' ≡ out ++ (u ∷ [])
    → AreNew s out
    → AreNew (read s out) (u ∷ rest)
    → Reads s out out' u rest
unfolding read
added-Reads s out out' u rest e old new =
    let state : read s out' ≡ after (read s out) u = ap (read s) e ∙ read-append s out (u ∷ []) in
    (
      subst (AreNew s) (sym e) (append-AreNew s out (u ∷ []) old (new.0, tt)),
      state,
      subst (λ t. AreNew t rest) (sym state) new.1,
    )

merged-Reads :
    (s : Option PreviewStreamState) (front out out' : List PreviewUpdate) (x u m : PreviewUpdate)
    (rest : List PreviewUpdate)
    → out ≡ front ++ (x ∷ [])
    → out' ≡ front ++ (m ∷ [])
    → merge_preview_updates x u ≡ some m
    → update_schema u ≡ true
    → AreNew s out
    → AreNew (read s out) (u ∷ rest)
    → Reads s out out' u rest
unfolding read
merged-Reads s front out out' x u m rest e e' merges v old new =
    let (old_front, old_x) = AreNew-append s front (x ∷ []) (subst (AreNew s) e old) in
    let so_far : read s out ≡ after (read s front) x =
      ap (read s) e ∙ read-append s front (x ∷ []) in
    let new_u : is_duplicate (after (read s front) x) u.op u.through_sequence ≡ false =
      ap (λ t. is_duplicate t u.op u.through_sequence) (sym so_far) ∙ new.0 in
    let state : read s out' ≡ after (read s out) u =
      ap (read s) e'
      ∙ read-append s front (m ∷ [])
      ∙ sym (merge_keeps_state (read s front) x u m v merges old_x.0)
      ∙ ap (λ t. after t u) (sym so_far) in
    (
      subst (AreNew s) (sym e') (
          append-AreNew s front (m ∷ []) old_front
            (merged_is_new (read s front) x u m v merges old_x.0 new_u, tt)),
      state,
      subst (λ t. AreNew t rest) (sym state) new.1,
    )

of_key-own :
    (k : PreviewKey) (u : PreviewUpdate) (us : List PreviewUpdate)
    → same_key u.key k ≡ true
    → of_key k (u ∷ us) ≡ u ∷ of_key k us
of_key-own k u us h = ground arith

of_key-other :
    (k : PreviewKey) (u : PreviewUpdate) (us : List PreviewUpdate)
    → same_key u.key k ≡ false
    → of_key k (u ∷ us) ≡ of_key k us
of_key-other k u us h = ground arith

-- The loop, from any point of it.
coalesce_from-read :
    (k : PreviewKey) (s : Option PreviewStreamState) (c : Coalescing) (us : List PreviewUpdate)
    → IsIndexed c
    → All (λ (u : PreviewUpdate). update_schema u ≡ true) us
    → AreNew s (of_key k c.output)
    → AreNew (read s (of_key k c.output)) (of_key k us)
    → AreNew s (of_key k (coalesce_from c us).output)
      × (read s (of_key k (coalesce_from c us).output)
          ≡ read (read s (of_key k c.output)) (of_key k us))
unfolding coalesce_from read
coalesce_from-read k s c [] h v old new = (old, refl)
coalesce_from-read k s c (u ∷ us) h v old new =
    let (h', round) = coalesce_one-IsIndexed c u h in
    go (round k) (λ old' new'. coalesce_from-read k s (coalesce_one c u) us h' v.1 old' new')
  where
    Goal : Option PreviewStreamState → Type 0
    Goal t =
        AreNew s (of_key k (coalesce_from (coalesce_one c u) us).output)
        × (read s (of_key k (coalesce_from (coalesce_one c u) us).output) ≡ t)

    own_step :
        same_key u.key k ≡ true
        → (AreNew (read s (of_key k c.output)) (u ∷ of_key k us)
            → Reads s (of_key k c.output) (of_key k (coalesce_one c u).output) u (of_key k us))
        → (AreNew s (of_key k (coalesce_one c u).output)
            → AreNew (read s (of_key k (coalesce_one c u).output)) (of_key k us)
            → Goal (read (read s (of_key k (coalesce_one c u).output)) (of_key k us)))
        → Goal (read (read s (of_key k c.output)) (of_key k (u ∷ us)))
    own_step own reads later =
        let (old', state, new') =
          reads (subst (AreNew (read s (of_key k c.output))) (of_key-own k u us own) new) in
        subst Goal
          (ap (λ t. read t (of_key k us)) state
            ∙ ap (read (read s (of_key k c.output))) (sym (of_key-own k u us own)))
          (later old' new')

    go :
        Round k c (coalesce_one c u) u
        → (AreNew s (of_key k (coalesce_one c u).output)
            → AreNew (read s (of_key k (coalesce_one c u).output)) (of_key k us)
            → Goal (read (read s (of_key k (coalesce_one c u).output)) (of_key k us)))
        → Goal (read (read s (of_key k c.output)) (of_key k (u ∷ us)))
    go (added own e) later =
        own_step own
          (λ n.
            added-Reads s (of_key k c.output) (of_key k (coalesce_one c u).output) u (of_key k us) e
              old n)
          later
    go (merged front x m own e e' merges) later =
        own_step own
          (λ n.
            merged-Reads s front (of_key k c.output) (of_key k (coalesce_one c u).output) x u m
              (of_key k us) e e' merges v.0 old n)
          later
    go (other_stream other e) later =
        let same_rest = of_key-other k u us other in
        let new' =
          subst (λ xs. AreNew (read s xs) (of_key k us)) (sym e)
            (subst (AreNew (read s (of_key k c.output))) same_rest new) in
        subst Goal
          (ap (λ xs. read (read s xs) (of_key k us)) e
            ∙ ap (read (read s (of_key k c.output))) (sym same_rest))
          (later (subst (AreNew s) (sym e) old) new')

empty-IsIndexed : IsIndexed (record { output = []; index = [] })
unfolding last_index
empty-IsIndexed q j y l g = cc

-- When every update passes its schema and, for a reader of a stream that starts in any state, none of
-- the stream's updates is a duplicate at its turn, then none of the coalesced updates of the stream is
-- one at its turn either, and they lead the reader to the same state: the same text, the same last
-- sequence number, the same gap.
pub coalesced_reads_the_same :
    (k : PreviewKey) (s : Option PreviewStreamState) (us : List PreviewUpdate)
    → All (λ (u : PreviewUpdate). update_schema u ≡ true) us
    → AreNew s (of_key k us)
    → AreNew s (of_key k (coalesce_preview_updates us))
      × (read s (of_key k (coalesce_preview_updates us)) ≡ read s (of_key k us))
unfolding coalesce_preview_updates read
coalesced_reads_the_same k s us v new =
    coalesce_from-read k s (record { output = []; index = [] }) us empty-IsIndexed v tt new
