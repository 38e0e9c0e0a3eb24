-- ===== src/Queue/Order.antt =====
-- The values of a queue in order (src/core/async-value-queue.ts): those that promises were resolved
-- with, and those that are buffered.
use Prim.Native.Nat.{min}
use mathlib.Core.List.{append_assoc, append-nil}
use mosoo_agent_driver.Base.{
  ℕ, zero, suc, ◌≡◌, refl, ◌⊎◌, inl, inr, Bool, false, Option, none, some, List, [], ◌∷◌, ◌++◌,
  length, take, drop, Result, ok, err, arith, >>=-eq-ok,
}
use mosoo_agent_driver.Queue.{
  BufferedValue, AsyncValueQueue, QueueError, buffer, buffer_all, push_many, push_reserved,
  hand_out, all_done,
}
use mosoo_agent_driver.Queue.Accounts.{
  Op, pushes, pushes_reserved, apply, min-suc, min_zero, zero_min, drop-nil,
}

-- 0, 1, …, n - 1
abbrev pub upto : ℕ → List ℕ
upto zero = []
upto (suc n) = upto n ++ (n ∷ [])

module _ {ℓ} {A : Type ℓ} where
  -- the values that promises were resolved with, in the order of resolution
  abbrev pub delivered : List (ℕ × Option A) → List A
  delivered [] = []
  delivered ((w, none) ∷ rest) = delivered rest
  delivered ((w, some a) ∷ rest) = a ∷ delivered rest

  abbrev pub promises : List (ℕ × Option A) → List ℕ
  promises [] = []
  promises ((w, o) ∷ rest) = w ∷ promises rest

  abbrev pub buffered : List (BufferedValue A) → List A
  buffered [] = []
  buffered (b ∷ bs) = b.value ∷ buffered bs

  abbrev pub if_ok : Result QueueError (AsyncValueQueue A) → List A → List A
  if_ok (ok t) vs = vs
  if_ok (err e) vs = []

  -- what a call adds to the accepted values
  unfoldable pub accepts : AsyncValueQueue A → Op A → List A
  accepts q (pushes vs) = if_ok (push_many vs q) vs
  accepts q (pushes_reserved v) = if_ok (push_reserved v q) (v ∷ [])
  accepts q _ = []

  -- the values that the calls add, in order
  unfoldable pub accepted : AsyncValueQueue A → List (Op A) → List A
  unfolding accepts
  accepted q [] = []
  accepted q (o ∷ os) = accepts q o ++ accepted (apply q o) os

  pub record IsOrdered (q : AsyncValueQueue A) (history : List A) : Type ℓ where
    pub values_in_order : delivered q.settled ++ buffered q.values ≡ history
    pub promises_in_order : promises q.settled ++ q.waiters ≡ upto q.issued

  pub delivered-append :
      (xs ys : List (ℕ × Option A)) → delivered (xs ++ ys) ≡ delivered xs ++ delivered ys
  delivered-append [] ys = refl
  delivered-append ((w, none) ∷ xs) ys = delivered-append xs ys
  delivered-append ((w, some a) ∷ xs) ys = rw (delivered-append xs ys)

  pub promises-append :
      (xs ys : List (ℕ × Option A)) → promises (xs ++ ys) ≡ promises xs ++ promises ys
  promises-append [] ys = refl
  promises-append ((w, o) ∷ xs) ys = rw (promises-append xs ys)

  pub buffered-append :
      (xs ys : List (BufferedValue A)) → buffered (xs ++ ys) ≡ buffered xs ++ buffered ys
  buffered-append [] ys = refl
  buffered-append (b ∷ xs) ys = rw (buffered-append xs ys)

  pub delivered-all_done : (ws : List ℕ) → delivered (all_done {A = A} ws) ≡ []
  delivered-all_done [] = refl
  delivered-all_done (w ∷ ws) = delivered-all_done ws

  pub delivered-hand_out :
      (ws : List ℕ) (vs : List A)
      → delivered (hand_out ws (take (min (length vs) (length ws)) vs))
        ≡ take (min (length vs) (length ws)) vs
  delivered-hand_out [] [] = refl
  delivered-hand_out [] (v ∷ vs) = rw (min_zero (length (v ∷ vs)))
  delivered-hand_out (w ∷ ws) [] = rw (zero_min (suc (length ws)))
  delivered-hand_out (w ∷ ws) (v ∷ vs) =
      rw (min-suc (length vs) (length ws)) (rw (delivered-hand_out ws vs))

  pub promises-hand_out :
      (ws : List ℕ) (vs : List A)
      → promises (hand_out ws (take (min (length vs) (length ws)) vs))
          ++ drop (min (length vs) (length ws)) ws
        ≡ ws
  promises-hand_out [] [] = refl
  promises-hand_out [] (v ∷ vs) = drop-nil (min (length (v ∷ vs)) 0)
  promises-hand_out (w ∷ ws) [] = rw (zero_min (suc (length ws)))
  promises-hand_out (w ∷ ws) (v ∷ vs) =
      rw (min-suc (length vs) (length ws)) (rw (promises-hand_out ws vs))

  pub buffer-value :
      (q : AsyncValueQueue A) (r : Bool) (v : A) (b : BufferedValue A)
      → buffer q r v ≡ ok b
      → b.value ≡ v
  unfolding buffer
  buffer-value q r v b h = ground arith

  pub buffered-buffer_all :
      (q : AsyncValueQueue A) (vs : List A) (bs : List (BufferedValue A))
      → buffer_all q vs ≡ ok bs
      → buffered bs ≡ vs
  unfolding buffer_all
  buffered-buffer_all q [] bs h = ground arith
  buffered-buffer_all q (v ∷ vs) bs h =
      let (b, eb, h') = >>=-eq-ok (buffer q false v) _ h in
      let (rest, er, e) = >>=-eq-ok (buffer_all q vs) _ h' in
      ground (arith, buffer-value q false v b eb, buffered-buffer_all q vs rest er)

  pub promises-all_done :
      (q : AsyncValueQueue A) (ws : List ℕ) → promises (all_done {A = A} ws) ≡ ws
  promises-all_done q [] = refl
  promises-all_done q (w ∷ ws) = rw (promises-all_done q ws)

  pub regroup :
      (d b x y : List A) → (x ≡ []) ⊎ (b ≡ []) → (d ++ x) ++ (b ++ y) ≡ (d ++ b) ++ (x ++ y)
  regroup d b x y (inl e) = simp (e, append-nil, append_assoc)
  regroup d b x y (inr e) = simp (e, append-nil, append_assoc)
