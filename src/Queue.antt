-- ===== src/Queue.antt =====
-- The kernel's bounded queue (src/core/async-value-queue.ts). A promise that `next` returns is the
-- number of that call; `settled` lists the promises that are resolved, in the order of resolution,
-- `none` standing for `done`. A method that throws returns `err`: it throws before it writes.
pub mod Accounts
pub mod Order
pub mod Fifo
mod Examples
use Prim.Native.Nat.{min}
use mosoo_agent_driver.Base.{
  ℕ, suc, ◌+◌, ◌-◌, Bool, true, false, not, Option, none, some, List, [], ◌∷◌, ◌++◌, leb, length,
  take, drop, if◌then◌else◌, Result, ok, err, guard, require, ◌>>=◌, ◌>>◌,
}

pub record AsyncValueQueueReserve : Type 0 where
  pub max_bytes : ℕ
  pub max_size : ℕ

pub record BufferedValue {ℓ} (A : Type ℓ) : Type ℓ where
  pub bytes : ℕ
  pub reserved : Bool
  pub value : A

-- `measure` gives `none` for a number that is no non-negative safe integer, and `max_bytes` is
-- `none` for the default, positive infinity.
pub record AsyncValueQueue {ℓ} (A : Type ℓ) : Type ℓ where
  pub max_bytes : Option ℕ
  pub max_size : ℕ
  pub measure : A → Option ℕ
  pub reserve : Option AsyncValueQueueReserve
  pub values : List (BufferedValue A)
  pub waiters : List ℕ
  pub bytes : ℕ
  pub closed : Bool
  pub reserved_bytes : ℕ
  pub reserved_size : ℕ
  pub size : ℕ
  pub issued : ℕ
  pub settled : List (ℕ × Option A)

pub data QueueError : Type 0 where
  queue_closed no_reserve reserve_bytes_exceeded reserve_items_exceeded : QueueError
  items_exceeded bytes_exceeded invalid_bytes : QueueError

-- `bytes <= max`
abbrev pub fits : ℕ → Option ℕ → Bool
fits n none = true
fits n (some limit) = leb n limit

module _ {ℓ} {A : Type ℓ} where
  unfoldable pub new :
      Option ℕ → ℕ → (A → Option ℕ) → Option AsyncValueQueueReserve → AsyncValueQueue A
  new max_bytes max_size measure reserve = record {
    max_bytes = max_bytes;
    max_size = max_size;
    measure = measure;
    reserve = reserve;
    values = [];
    waiters = [];
    bytes = 0;
    closed = false;
    reserved_bytes = 0;
    reserved_size = 0;
    size = 0;
    issued = 0;
    settled = [];
  }

  -- each waiter is resolved by `done`
  abbrev pub all_done : List ℕ → List (ℕ × Option A)
  all_done [] = []
  all_done (w ∷ ws) = (w, none) ∷ all_done ws

  -- `close({ discard })`
  unfoldable pub close : Bool → AsyncValueQueue A → AsyncValueQueue A
  close discard q =
      let t =
        if discard
        then record q { values = []; bytes = 0; reserved_bytes = 0; reserved_size = 0; size = 0 }
        else q in
      if t.closed
      then t
      else record t { closed = true; waiters = []; settled = t.settled ++ all_done t.waiters }

  -- A new promise, and its result where the call resolves it at once. The counters are those of the
  -- entry that leaves, so the subtraction is exact.
  take_front : List (BufferedValue A) → AsyncValueQueue A → AsyncValueQueue A
  take_front [] q =
      if q.closed
      then record q { issued = suc q.issued; settled = q.settled ++ ((q.issued, none) ∷ []) }
      else record q { issued = suc q.issued; waiters = q.waiters ++ (q.issued ∷ []) }
  take_front (b ∷ rest) q =
      let t = record q {
        values = rest;
        issued = suc q.issued;
        settled = q.settled ++ ((q.issued, some b.value) ∷ []);
      } in
      if b.reserved
      then record t {
        reserved_bytes = t.reserved_bytes - b.bytes;
        reserved_size = t.reserved_size - 1;
      }
      else record t { bytes = t.bytes - b.bytes; size = t.size - 1 }

  unfoldable pub next : AsyncValueQueue A → AsyncValueQueue A
  unfolding take_front
  next q = take_front q.values q

  -- `#buffer`
  unfoldable pub buffer : AsyncValueQueue A → Bool → A → Result QueueError (BufferedValue A)
  buffer q reserved value = elim (q.measure value) [
    | none ↦ err invalid_bytes
    | some bytes ↦ ok (record { bytes = bytes; reserved = reserved; value = value })
  ]

  unfoldable pub buffer_all :
      AsyncValueQueue A → List A → Result QueueError (List (BufferedValue A))
  buffer_all q [] = ok []
  buffer_all q (v ∷ vs) = do b ← buffer q false v; bs ← buffer_all q vs; ok (b ∷ bs)

  abbrev pub total_bytes : List (BufferedValue A) → ℕ
  total_bytes [] = 0
  total_bytes (b ∷ bs) = b.bytes + total_bytes bs

  -- the values for which somebody waits, in the order of the waiters
  abbrev pub hand_out : List ℕ → List A → List (ℕ × Option A)
  hand_out [] vs = []
  hand_out (w ∷ ws) [] = []
  hand_out (w ∷ ws) (v ∷ vs) = (w, some v) ∷ hand_out ws vs

  unfoldable pub push_many : List A → AsyncValueQueue A → Result QueueError (AsyncValueQueue A)
  unfolding buffer_all
  push_many vs q = do
    guard (not q.closed) queue_closed
    let direct_count = min (length vs) (length q.waiters)
    buffered ← buffer_all q (drop direct_count vs)
    guard (leb (q.size + length buffered) q.max_size) items_exceeded
    guard (fits (q.bytes + total_bytes buffered) q.max_bytes) bytes_exceeded
    ok (record q {
      settled = q.settled ++ hand_out q.waiters (take direct_count vs);
      waiters = drop direct_count q.waiters;
      values = q.values ++ buffered;
      bytes = q.bytes + total_bytes buffered;
      size = q.size + length buffered;
    })

  unfoldable pub push : A → AsyncValueQueue A → Result QueueError (AsyncValueQueue A)
  unfolding push_many
  push value q = push_many (value ∷ []) q

  -- `push_reserved` behind its checks of the entry alone
  store_reserved :
      AsyncValueQueueReserve
      → BufferedValue A
      → List ℕ
      → AsyncValueQueue A
      → Result QueueError (AsyncValueQueue A)
  store_reserved r b (w ∷ ws) q =
      ok (record q { waiters = ws; settled = q.settled ++ ((w, some b.value) ∷ []) })
  store_reserved r b [] q = do
    guard (not (leb r.max_size q.reserved_size)) reserve_items_exceeded
    guard (leb (q.reserved_bytes + b.bytes) r.max_bytes) reserve_bytes_exceeded
    ok (record q {
      values = q.values ++ (b ∷ []);
      reserved_bytes = q.reserved_bytes + b.bytes;
      reserved_size = q.reserved_size + 1;
    })

  unfoldable pub push_reserved : A → AsyncValueQueue A → Result QueueError (AsyncValueQueue A)
  unfolding buffer store_reserved
  push_reserved value q = do
    guard (not q.closed) queue_closed
    r ← require q.reserve no_reserve
    b ← buffer q true value
    guard (leb b.bytes r.max_bytes) reserve_bytes_exceeded
    store_reserved r b q.waiters q
