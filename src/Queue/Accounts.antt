-- ===== src/Queue/Accounts.antt =====
-- The counters and limits of src/core/async-value-queue.ts.
use Prim.Native.Nat.{min}
use mosoo_agent_driver.Base.{
  ℕ, zero, suc, ◌+◌, ◌≤◌, ◌≡◌, refl, sym, subst, ◌⊎◌, inl, inr, Bool, true, false, Option, none,
  some, List, [], ◌∷◌, ◌++◌, leb, length, take, drop, if◌then◌else◌, same_bool, Result, ok, err,
  arith, >>=-eq-ok, guard-eq-ok, require, require-eq-ok, not,
}
use mosoo_agent_driver.Queue.{
  AsyncValueQueueReserve, BufferedValue, AsyncValueQueue, QueueError, fits, new, close, take_front,
  next, buffer, buffer_all, total_bytes, push_many, push_reserved, store_reserved, hand_out,
  no_reserve, reserve_bytes_exceeded, items_exceeded, queue_closed, bytes_exceeded,
}

-- One call of a method.
pub data Op {ℓ} (A : Type ℓ) : Type ℓ where
  pushes : List A → Op A
  pushes_reserved : A → Op A
  nexts : Op A
  closes : Bool → Op A

-- the limits of the reserve; without one nothing is reserved
abbrev pub ReserveFits : Option AsyncValueQueueReserve → ℕ → ℕ → Type 0
ReserveFits none size bytes = (size ≡ 0) × (bytes ≡ 0)
ReserveFits (some r) size bytes = (size ≤ r.max_size) × (bytes ≤ r.max_bytes)

pub min-suc : (a b : ℕ) → min (suc a) (suc b) ≡ suc (min a b)
min-suc a b = omega arith

pub min_zero : (a : ℕ) → min a 0 ≡ 0
min_zero a = omega arith

pub zero_min : (a : ℕ) → min 0 a ≡ 0
zero_min a = omega arith

pub drop-nil {ℓ} : {A : Type ℓ} (n : ℕ) → drop {A = A} n [] ≡ []
drop-nil zero = refl
drop-nil (suc n) = refl

-- either every waiter is served, or every value is handed out
pub served {ℓ κ} :
    {A : Type ℓ} {B : Type κ} (vs : List A) (ws : List B)
    → (drop (min (length vs) (length ws)) ws ≡ []) ⊎ (drop (min (length vs) (length ws)) vs ≡ [])
served vs [] = inl (drop-nil _)
served [] (w ∷ ws) = inr (drop-nil _)
served (v ∷ vs) (w ∷ ws) = rw (min-suc (length vs) (length ws)) (served vs ws)

module _ {ℓ} {A : Type ℓ} where
  abbrev pub entries : Bool → List (BufferedValue A) → ℕ
  entries r [] = 0
  entries r (b ∷ bs) = let rest = entries r bs in if same_bool r b.reserved then suc rest else rest

  abbrev pub entry_bytes : Bool → List (BufferedValue A) → ℕ
  entry_bytes r [] = 0
  entry_bytes r (b ∷ bs) =
      let rest = entry_bytes r bs in if same_bool r b.reserved then b.bytes + rest else rest

  pub record IsAccounted (q : AsyncValueQueue A) : Type ℓ where
    pub size_exact : q.size ≡ entries false q.values
    pub bytes_exact : q.bytes ≡ entry_bytes false q.values
    pub reserved_size_exact : q.reserved_size ≡ entries true q.values
    pub reserved_bytes_exact : q.reserved_bytes ≡ entry_bytes true q.values
    pub size_fits : q.size ≤ q.max_size
    pub bytes_fit : fits q.bytes q.max_bytes ≡ true
    pub reserved_fit : ReserveFits q.reserve q.reserved_size q.reserved_bytes
    pub exclusive : (q.waiters ≡ []) ⊎ (q.values ≡ [])
    pub closed_idle : q.closed ≡ true → q.waiters ≡ []

  entries-append :
      (r : Bool) (xs ys : List (BufferedValue A))
      → entries r (xs ++ ys) ≡ entries r xs + entries r ys
  entries-append r [] ys = omega arith
  entries-append r (x ∷ xs) ys = ground (arith, entries-append r xs ys)

  entry_bytes-append :
      (r : Bool) (xs ys : List (BufferedValue A))
      → entry_bytes r (xs ++ ys) ≡ entry_bytes r xs + entry_bytes r ys
  entry_bytes-append r [] ys = omega arith
  entry_bytes-append r (x ∷ xs) ys = ground (arith, entry_bytes-append r xs ys)

  pub new-IsAccounted :
      (max_bytes : Option ℕ) (max_size : ℕ) (measure : A → Option ℕ)
      (reserve : Option AsyncValueQueueReserve)
      → IsAccounted (new max_bytes max_size measure reserve)
  unfolding new
  new-IsAccounted mb ms f r = ground arith

  close-IsAccounted :
      (discard : Bool) (q : AsyncValueQueue A) → IsAccounted q → IsAccounted (close discard q)
  unfolding close
  close-IsAccounted discard q v = ground arith

  take_front-IsAccounted :
      (vs : List (BufferedValue A)) (q : AsyncValueQueue A)
      → q.values ≡ vs
      → IsAccounted q
      → IsAccounted (take_front vs q)
  unfolding take_front
  take_front-IsAccounted [] q e v = ground arith
  take_front-IsAccounted (b ∷ rest) q e v = ground arith

  next-IsAccounted : (q : AsyncValueQueue A) → IsAccounted q → IsAccounted (next q)
  unfolding next
  next-IsAccounted q v = take_front-IsAccounted q.values q refl v

  buffer-reserved :
      (q : AsyncValueQueue A) (r : Bool) (v : A) (b : BufferedValue A)
      → buffer q r v ≡ ok b
      → b.reserved ≡ r
  unfolding buffer
  buffer-reserved q r v b h = ground arith

  -- Nothing that `buffer_all` makes is reserved.
  pub record IsPlain (bs : List (BufferedValue A)) : Type 0 where
    pub plain : entries false bs ≡ length bs
    pub none_reserved : entries true bs ≡ 0
    pub plain_bytes : entry_bytes false bs ≡ total_bytes bs
    pub no_bytes_reserved : entry_bytes true bs ≡ 0

  buffer_all-IsPlain :
      (q : AsyncValueQueue A) (vs : List A) (bs : List (BufferedValue A))
      → buffer_all q vs ≡ ok bs
      → IsPlain bs
  unfolding buffer_all
  buffer_all-IsPlain q [] bs h = ground arith
  buffer_all-IsPlain q (v ∷ vs) bs h =
      let (b, eb, h') = >>=-eq-ok (buffer q false v) _ h in
      let (rest, er, e) = >>=-eq-ok (buffer_all q vs) _ h' in
      ground (arith, buffer-reserved q false v b eb, buffer_all-IsPlain q vs rest er)

  -- the parts of a successful `push_many`
  pub push_many_parts :
      (vs : List A) (q t : AsyncValueQueue A)
      → push_many vs q ≡ ok t
      → (bs : List (BufferedValue A)) × (buffer_all q (drop (min (length vs) (length q.waiters)) vs)
          ≡ ok bs)
        × (q.closed ≡ false)
        × (q.size + length bs ≤ q.max_size)
        × (fits (q.bytes + total_bytes bs) q.max_bytes ≡ true)
        × (t ≡ record q {
          settled = q.settled ++ hand_out q.waiters (take (min (length vs) (length q.waiters)) vs);
          waiters = drop (min (length vs) (length q.waiters)) q.waiters;
          values = q.values ++ bs;
          bytes = q.bytes + total_bytes bs;
          size = q.size + length bs;
        })
  unfolding push_many
  push_many_parts vs q t h =
      let (open_queue, h1) = guard-eq-ok (not q.closed) queue_closed _ h in
      let (bs, eb, h2) =
        >>=-eq-ok (buffer_all q (drop (min (length vs) (length q.waiters)) vs)) _ h1 in
      let (few, h3) = guard-eq-ok (leb (q.size + length bs) q.max_size) items_exceeded _ h2 in
      let (small, h4) =
        guard-eq-ok (fits (q.bytes + total_bytes bs) q.max_bytes) bytes_exceeded _ h3 in
      (bs, eb, ground arith, ground arith, small, ground arith)

  buffer_all-nil :
      (q : AsyncValueQueue A) (bs : List (BufferedValue A)) → buffer_all q [] ≡ ok bs → bs ≡ []
  unfolding buffer_all
  buffer_all-nil q bs h = ground arith

  push_many-IsAccounted :
      (vs : List A) (q t : AsyncValueQueue A)
      → push_many vs q ≡ ok t
      → IsAccounted q
      → IsAccounted t
  push_many-IsAccounted vs q t h v =
      let (bs, eb, opened, few, small, e) = push_many_parts vs q t h in
      let p = buffer_all-IsPlain q _ bs eb in
      subst IsAccounted (sym e) (record {
        size_exact = ground (arith, entries-append false q.values bs);
        bytes_exact = ground (arith, entry_bytes-append false q.values bs);
        reserved_size_exact = ground (arith, entries-append true q.values bs);
        reserved_bytes_exact = ground (arith, entry_bytes-append true q.values bs);
        size_fits = few;
        bytes_fit = small;
        reserved_fit = v.reserved_fit;
        exclusive = elim v.exclusive [
          | inl idle ↦ inl (rw idle (drop-nil (min (length vs) 0)))
          | inr emptied ↦ elim (served vs q.waiters) [
            | inl all ↦ inl all
            | inr direct ↦ inr (rw (emptied, buffer_all-nil q bs (rw direct at eb)))
          ]
        ];
        closed_idle = λ c. cc;
      })

  store_reserved-IsAccounted :
      (r : AsyncValueQueueReserve) (b : BufferedValue A) (ws : List ℕ) (q t : AsyncValueQueue A)
      → q.reserve ≡ some r
      → b.reserved ≡ true
      → q.waiters ≡ ws
      → q.closed ≡ false
      → store_reserved r b ws q ≡ ok t
      → IsAccounted q
      → IsAccounted t
  unfolding store_reserved
  store_reserved-IsAccounted r b [] q t er eb ew ec h v = ground (
    arith,
    entries-append false q.values (b ∷ []),
    entries-append true q.values (b ∷ []),
    entry_bytes-append false q.values (b ∷ []),
    entry_bytes-append true q.values (b ∷ []),
  )
  store_reserved-IsAccounted r b (w ∷ ws) q t er eb ew ec h v = ground arith

  push_reserved-IsAccounted :
      (value : A) (q t : AsyncValueQueue A)
      → push_reserved value q ≡ ok t
      → IsAccounted q
      → IsAccounted t
  unfolding push_reserved
  push_reserved-IsAccounted value q t h v =
      let (opened, h1) = guard-eq-ok (not q.closed) queue_closed _ h in
      let (r, er, h2) = >>=-eq-ok (require q.reserve no_reserve) _ h1 in
      let (b, eb, h3) = >>=-eq-ok (buffer q true value) _ h2 in
      let (small, h4) = guard-eq-ok (leb b.bytes r.max_bytes) reserve_bytes_exceeded _ h3 in
      store_reserved-IsAccounted r b q.waiters q t (require-eq-ok q.reserve no_reserve er)
        (buffer-reserved q true value b eb) refl (ground arith) h4 v

  -- The queue after a call: a call that throws leaves it.
  abbrev pub after : AsyncValueQueue A → Result QueueError (AsyncValueQueue A) → AsyncValueQueue A
  after q (ok t) = t
  after q (err e) = q

  unfoldable pub apply : AsyncValueQueue A → Op A → AsyncValueQueue A
  apply q (pushes vs) = after q (push_many vs q)
  apply q (pushes_reserved v) = after q (push_reserved v q)
  apply q nexts = next q
  apply q (closes discard) = close discard q

  unfoldable pub apply_all : AsyncValueQueue A → List (Op A) → AsyncValueQueue A
  unfolding apply
  apply_all q [] = q
  apply_all q (o ∷ os) = apply_all (apply q o) os

  after-IsAccounted :
      (q : AsyncValueQueue A) (r : Result QueueError (AsyncValueQueue A))
      → ((t : AsyncValueQueue A) → r ≡ ok t → IsAccounted t)
      → IsAccounted q
      → IsAccounted (after q r)
  after-IsAccounted q (ok t) k v = k t refl
  after-IsAccounted q (err e) k v = v

  -- Every method keeps the accounts, whether it throws or returns.
  pub apply-IsAccounted :
      (q : AsyncValueQueue A) (o : Op A) → IsAccounted q → IsAccounted (apply q o)
  unfolding apply
  apply-IsAccounted q (pushes vs) v =
      after-IsAccounted q (push_many vs q) (λ t e. push_many-IsAccounted vs q t e v) v
  apply-IsAccounted q (pushes_reserved a) v =
      after-IsAccounted q (push_reserved a q) (λ t e. push_reserved-IsAccounted a q t e v) v
  apply-IsAccounted q nexts v = next-IsAccounted q v
  apply-IsAccounted q (closes d) v = close-IsAccounted d q v

  apply_all-IsAccounted :
      (q : AsyncValueQueue A) (os : List (Op A)) → IsAccounted q → IsAccounted (apply_all q os)
  unfolding apply_all
  apply_all-IsAccounted q [] v = v
  apply_all-IsAccounted q (o ∷ os) v =
      apply_all-IsAccounted (apply q o) os (apply-IsAccounted q o v)

  -- After any method calls on a new queue, `size` and `bytes` are the number and the bytes of the
  -- buffered entries that are not reserved, and the reserved counters those of the reserved ones;
  -- each is within its limit, nobody waits while an entry is buffered, and nobody waits on a closed
  -- queue.
  pub accounts_hold :
      (max_bytes : Option ℕ) (max_size : ℕ) (measure : A → Option ℕ)
      (reserve : Option AsyncValueQueueReserve) (os : List (Op A))
      → IsAccounted (apply_all (new max_bytes max_size measure reserve) os)
  accounts_hold mb ms f r os = apply_all-IsAccounted _ os (new-IsAccounted mb ms f r)
