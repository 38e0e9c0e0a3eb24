-- ===== src/Queue/Fifo.antt =====
-- The order of delivery of src/core/async-value-queue.ts: the queue refines a list of the accepted
-- values, of which the first ones have gone to the promises in the order of the calls of `next`.
use Prim.Native.Nat.{min}
use mathlib.Core.List.{append_assoc, append-nil}
use mathlib.Core.Path.{ap₂}
use mosoo_agent_driver.Base.{
  ℕ, suc, ◌≡◌, refl, sym, subst, ap, ◌∙◌, Bool-cases, ◌⊎◌, inl, inr, true, false, Option, some,
  List, [], ◌∷◌, ◌++◌, length, take, drop, All, Result, ok, err, arith, >>=-eq-ok, guard-eq-ok,
  require, not, leb, take-drop_append,
}
use mosoo_agent_driver.Queue.{
  AsyncValueQueueReserve, BufferedValue, AsyncValueQueue, QueueError, new, close, take_front, next,
  buffer, push_many, push_reserved, store_reserved, queue_closed, no_reserve,
  reserve_bytes_exceeded,
}
use mosoo_agent_driver.Queue.Order.{
  regroup, promises-append, delivered-all_done, promises-all_done, if_ok, accepts, accepted,
  delivered, buffered, IsOrdered, delivered-append, buffered-append, delivered-hand_out,
  promises-hand_out, buffer-value, buffered-buffer_all,
}
use mosoo_agent_driver.Queue.Accounts.{
  Op, pushes, pushes_reserved, nexts, closes, IsAccounted, apply, apply_all, push_many_parts, after,
  apply-IsAccounted, new-IsAccounted, min_zero,
}

module _ {ℓ} {A : Type ℓ} where
  direct_or_empty :
      (q : AsyncValueQueue A) (vs : List A)
      → (q.waiters ≡ []) ⊎ (q.values ≡ [])
      → (take (min (length vs) (length q.waiters)) vs ≡ []) ⊎ (buffered q.values ≡ [])
  direct_or_empty q vs (inl e) = inl (rw (e, min_zero (length vs)))
  direct_or_empty q vs (inr e) = inr (rw e)

  push_many-IsOrdered :
      (vs history : List A) (q t : AsyncValueQueue A)
      → push_many vs q ≡ ok t
      → IsAccounted q
      → IsOrdered q history
      → IsOrdered t (history ++ vs)
  push_many-IsOrdered vs history q t h v o =
      let (bs, eb, opened, few, small, e) = push_many_parts vs q t h in
      let m : ℕ = min (length vs) (length q.waiters) in
      subst (λ (s : AsyncValueQueue A). IsOrdered s (history ++ vs)) (sym e)
        (record {
          values_in_order =
              simp
                (
                  delivered-append,
                  delivered-hand_out,
                  buffered-append,
                  buffered-buffer_all q (drop m vs) bs eb,
                )
                (regroup (delivered q.settled) (buffered q.values) (take m vs) (drop m vs)
                    (direct_or_empty q vs v.exclusive)
                  ∙ ap₂ ◌++◌ o.values_in_order (take-drop_append m vs));
          promises_in_order =
              simp (promises-append, append_assoc, promises-hand_out) o.promises_in_order;
        })

  -- the first entry moves from the buffer to a new promise
  moved_front :
      (b : BufferedValue A) (rest : List (BufferedValue A)) (history : List A)
      (q t : AsyncValueQueue A)
      → q.values ≡ b ∷ rest
      → q.waiters ≡ []
      → t.settled ≡ q.settled ++ ((q.issued, some b.value) ∷ [])
      → t.values ≡ rest
      → t.waiters ≡ q.waiters
      → t.issued ≡ suc q.issued
      → IsOrdered q history
      → IsOrdered t history
  moved_front b rest history q t e idle es ev ew ei o = record {
    values_in_order =
        simp (es, ev, delivered-append, append_assoc)
          (ap (λ (l : List (BufferedValue A)). delivered q.settled ++ buffered l) (sym e)
            ∙ o.values_in_order);
    promises_in_order =
        simp (es, ew, ei, idle, promises-append, append-nil)
          (ap (λ (l : List ℕ). l ++ (q.issued ∷ []))
            (rw (idle, append-nil) at o.promises_in_order));
  }

  take_front-IsOrdered :
      (vs : List (BufferedValue A)) (history : List A) (q : AsyncValueQueue A)
      → q.values ≡ vs
      → IsAccounted q
      → IsOrdered q history
      → IsOrdered (take_front vs q) history
  unfolding take_front
  take_front-IsOrdered [] history q e v o = elim (Bool-cases q.closed) [
    | inl shut ↦ simp shut (record {
      values_in_order = simp (delivered-append, append-nil) o.values_in_order;
      promises_in_order =
          simp (promises-append, v.closed_idle shut, append-nil)
            (rw (v.closed_idle shut, append-nil) at
              (ap (λ (l : List ℕ). l ++ (q.issued ∷ [])) o.promises_in_order));
    })
    | inr opened ↦ simp opened (record {
      values_in_order = o.values_in_order;
      promises_in_order =
          rw (← append_assoc) (ap (λ (l : List ℕ). l ++ (q.issued ∷ [])) o.promises_in_order);
    })
  ]
  take_front-IsOrdered (b ∷ rest) history q e v o =
      let idle : q.waiters ≡ [] = ground arith in
      elim (Bool-cases b.reserved) [
        | inl kept ↦ simp kept (moved_front b rest history q _ e idle refl refl refl refl o)
        | inr plain ↦ simp plain (moved_front b rest history q _ e idle refl refl refl refl o)
      ]

  close-IsOrdered :
      (history : List A) (q : AsyncValueQueue A)
      → IsOrdered q history
      → IsOrdered (close false q) history
  unfolding close
  close-IsOrdered history q o = elim (Bool-cases q.closed) [
    | inl shut ↦ simp shut o
    | inr opened ↦ simp opened (record {
      values_in_order = simp (delivered-append, delivered-all_done, append-nil) o.values_in_order;
      promises_in_order =
          simp (promises-append, promises-all_done q, append-nil) o.promises_in_order;
    })
  ]

  store_reserved-IsOrdered :
      (r : AsyncValueQueueReserve) (b : BufferedValue A) (ws : List ℕ) (history : List A)
      (q t : AsyncValueQueue A)
      → q.waiters ≡ ws
      → store_reserved r b ws q ≡ ok t
      → IsAccounted q
      → IsOrdered q history
      → IsOrdered t (history ++ (b.value ∷ []))
  unfolding store_reserved
  store_reserved-IsOrdered r b [] history q t ew h v o =
      let es : t.settled ≡ q.settled = ground arith in
      let ev : t.values ≡ q.values ++ (b ∷ []) = ground arith in
      let ew' : t.waiters ≡ q.waiters = ground arith in
      let ei : t.issued ≡ q.issued = ground arith in
      record {
        values_in_order =
            simp (es, ev, buffered-append, ← append_assoc)
              (ap (λ (l : List A). l ++ (b.value ∷ [])) o.values_in_order);
        promises_in_order = simp (es, ew', ei) o.promises_in_order;
      }
  store_reserved-IsOrdered r b (w ∷ ws) history q t ew h v o =
      let es : t.settled ≡ q.settled ++ ((w, some b.value) ∷ []) = ground arith in
      let ev : t.values ≡ [] = ground arith in
      let eq : q.values ≡ [] = ground arith in
      let ew' : t.waiters ≡ ws = ground arith in
      let ei : t.issued ≡ q.issued = ground arith in
      record {
        values_in_order =
            simp (es, ev, delivered-append, append-nil)
              (ap (λ (l : List A). l ++ (b.value ∷ [])) (rw (eq, append-nil) at o.values_in_order));
        promises_in_order =
            simp (es, ew', ei, promises-append, append_assoc) (rw ew at o.promises_in_order);
      }

  push_reserved-IsOrdered :
      (value : A) (history : List A) (q t : AsyncValueQueue A)
      → push_reserved value q ≡ ok t
      → IsAccounted q
      → IsOrdered q history
      → IsOrdered t (history ++ (value ∷ []))
  unfolding push_reserved
  push_reserved-IsOrdered value history q t h v o =
      let (opened, h1) = guard-eq-ok (not q.closed) queue_closed _ h in
      let (r, er, h2) = >>=-eq-ok (require q.reserve no_reserve) _ h1 in
      let (b, eb, h3) = >>=-eq-ok (buffer q true value) _ h2 in
      let (small, h4) = guard-eq-ok (leb b.bytes r.max_bytes) reserve_bytes_exceeded _ h3 in
      subst (λ (a : A). IsOrdered t (history ++ (a ∷ []))) (buffer-value q true value b eb)
        (store_reserved-IsOrdered r b q.waiters history q t refl h4 v o)

  after-IsOrdered :
      (q : AsyncValueQueue A) (r : Result QueueError (AsyncValueQueue A)) (vs history : List A)
      → ((t : AsyncValueQueue A) → r ≡ ok t → IsOrdered t (history ++ vs))
      → IsOrdered q history
      → IsOrdered (after q r) (history ++ if_ok r vs)
  after-IsOrdered q (ok t) vs history k o = k t refl
  after-IsOrdered q (err e) vs history k o = rw append-nil o

  abbrev pub KeepsEntries : Op A → Type 0
  KeepsEntries (closes discard) = discard ≡ false
  KeepsEntries _ = Unit

  apply-IsOrdered :
      (q : AsyncValueQueue A) (o : Op A) (history : List A)
      → KeepsEntries o
      → IsAccounted q
      → IsOrdered q history
      → IsOrdered (apply q o) (history ++ accepts q o)
  unfolding apply accepts next
  apply-IsOrdered q (pushes vs) history k v i =
      after-IsOrdered q (push_many vs q) vs history
        (λ t e. push_many-IsOrdered vs history q t e v i) i
  apply-IsOrdered q (pushes_reserved a) history k v i =
      after-IsOrdered q (push_reserved a q) (a ∷ []) history
        (λ t e. push_reserved-IsOrdered a history q t e v i) i
  apply-IsOrdered q nexts history k v i =
      rw append-nil (take_front-IsOrdered q.values history q refl v i)
  apply-IsOrdered q (closes discard) history k v i =
      rw (append-nil, k) (close-IsOrdered history q i)

  apply_all-IsOrdered :
      (q : AsyncValueQueue A) (os : List (Op A)) (history : List A)
      → All KeepsEntries os
      → IsAccounted q
      → IsOrdered q history
      → IsOrdered (apply_all q os) (history ++ accepted q os)
  unfolding apply_all accepted
  apply_all-IsOrdered q [] history k v i = rw append-nil i
  apply_all-IsOrdered q (o ∷ os) history k v i = rw (← append_assoc) (
      apply_all-IsOrdered (apply q o) os (history ++ accepts q o) k.1 (apply-IsAccounted q o v)
        (apply-IsOrdered q o history k.0 v i))

  new-IsOrdered :
      (max_bytes : Option ℕ) (max_size : ℕ) (measure : A → Option ℕ)
      (reserve : Option AsyncValueQueueReserve)
      → IsOrdered (new max_bytes max_size measure reserve) []
  unfolding new
  new-IsOrdered mb ms f r = record { values_in_order = refl; promises_in_order = refl }

  -- After any method calls on a new queue, none of which discards, the values that promises were
  -- resolved with, in the order of resolution, followed by the buffered ones, are the values that
  -- the successful pushes accepted, in order: none is lost, doubled or overtaken. The promises are
  -- resolved in the order of the calls of `next`, the waiting ones being the last.
  pub fifo :
      (max_bytes : Option ℕ) (max_size : ℕ) (measure : A → Option ℕ)
      (reserve : Option AsyncValueQueueReserve) (os : List (Op A))
      → All KeepsEntries os
      → IsOrdered
          (apply_all (new max_bytes max_size measure reserve) os)
          (accepted (new max_bytes max_size measure reserve) os)
  fifo mb ms f r os k =
      apply_all-IsOrdered _ os [] k (new-IsAccounted mb ms f r) (new-IsOrdered mb ms f r)
