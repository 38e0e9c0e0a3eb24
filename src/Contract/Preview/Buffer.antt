-- ===== src/Contract/Preview/Buffer.antt =====
-- The buffer of previews (`createPreviewBuffer` of src/contract/preview.ts). Its methods and the
-- events of its promise and its timer are functions on its variables. The callbacks of the options do
-- not call the buffer; what they are called with is recorded.
use mosoo_agent_driver.Base.{
  ℕ, ◌+◌, Bool, true, false, not, ◌&&◌, ◌||◌, List, [], ◌∷◌, ◌++◌, length, ltb, leb, if◌then◌else◌,
  Result, ok, guard, ◌>>◌,
}
use mosoo_agent_driver.Contract.Preview.{PreviewUpdate, update_schema, coalesce_preview_updates}

-- `draining`: undefined, a drain that awaits a flush, and one that has ended while its `finally` has
-- not run
pub data Drain : Type 0 where
  idle awaiting ending : Drain

-- `measure` is `jsonByteLength`; `flushed` and `dropped` are the arguments of `flush` and `onDrop`.
pub record PreviewBuffer : Type 0 where
  pub max_bytes : ℕ
  pub max_updates : ℕ
  pub measure : PreviewUpdate → ℕ
  pub updates : List PreviewUpdate
  pub bytes : ℕ
  pub timer : Bool
  pub draining : Drain
  pub flush_requested : Bool
  pub disposed : Bool
  pub flushed : List (List PreviewUpdate)
  pub dropped : List (List PreviewUpdate)

pub data BufferError : Type 0 where
  invalid_limits buffer_disposed invalid_update : BufferError

-- the start of `createPreviewBuffer`; the limits are integers that a double holds
unfoldable pub create_preview_buffer :
    ℕ → ℕ → ℕ → (PreviewUpdate → ℕ) → Result BufferError PreviewBuffer
create_preview_buffer max_bytes max_delay_ms max_updates measure = do
  guard (leb 1 max_bytes && leb 1 max_delay_ms && leb 1 max_updates) invalid_limits
  ok (record {
    max_bytes = max_bytes;
    max_updates = max_updates;
    measure = measure;
    updates = [];
    bytes = 0;
    timer = false;
    draining = idle;
    flush_requested = false;
    disposed = false;
    flushed = [];
    dropped = [];
  })

-- the rest of a round of `drain`, with the updates that it finds
abbrev pub drain_updates : List PreviewUpdate → PreviewBuffer → PreviewBuffer
drain_updates [] b = record b { flush_requested = false; draining = ending }
drain_updates (u ∷ us) b = record b {
  flush_requested = false;
  updates = [];
  bytes = 0;
  flushed = b.flushed ++ (coalesce_preview_updates (u ∷ us) ∷ []);
  draining = awaiting;
}

-- `drain` up to its next `await` or its end; a round that finds no update is the last
unfoldable pub drain : PreviewBuffer → PreviewBuffer
drain b =
    if not b.disposed && b.flush_requested
    then drain_updates b.updates b
    else record b { draining = ending }

abbrev pub is_idle : Drain → Bool
is_idle idle = true
is_idle _ = false

abbrev pub is_awaiting : Drain → Bool
is_awaiting awaiting = true
is_awaiting _ = false

abbrev pub is_ending : Drain → Bool
is_ending ending = true
is_ending _ = false

unfoldable pub flush : PreviewBuffer → PreviewBuffer
unfolding drain
flush b =
    let requested = record b { timer = false; flush_requested = true } in
    if is_idle b.draining then drain requested else requested

-- the flush that a drain awaits settles, with an error or without
unfoldable pub flush_settles : PreviewBuffer → PreviewBuffer
unfolding drain
flush_settles b = if is_awaiting b.draining then drain b else b

-- the `finally` of a drain that has ended
unfoldable pub drain_ends : PreviewBuffer → PreviewBuffer
unfolding flush
drain_ends b =
    if is_ending b.draining
    then (let t = record b { draining = idle } in
        if not t.disposed && t.flush_requested then flush t else t)
    else b

unfoldable pub timer_fires : PreviewBuffer → PreviewBuffer
unfolding flush
timer_fires b = if b.timer then flush b else b

unfoldable pub dispose : PreviewBuffer → PreviewBuffer
dispose b = record b { disposed = true; timer = false; updates = []; bytes = 0 }

abbrev pub is_empty : List PreviewUpdate → Bool
is_empty [] = true
is_empty (u ∷ us) = false

-- the end of `push`: the buffer is full, or the timer runs
abbrev pub check_limits : PreviewBuffer → PreviewBuffer
unfolding flush
check_limits b =
    if leb b.max_updates (length b.updates) || leb b.max_bytes b.bytes
    then (if is_idle b.draining then flush b else record b {
      timer = false;
      updates = [];
      bytes = 0;
      dropped = b.dropped ++ (b.updates ∷ []);
    })
    else record b { timer = true }

abbrev pub store : PreviewUpdate → PreviewBuffer → PreviewBuffer
store u b = record b {
  updates = b.updates ++ (u ∷ []);
  bytes = if is_empty b.updates then b.measure u + 2 else b.bytes + b.measure u + 1;
}

unfoldable pub push_admitted : PreviewUpdate → PreviewBuffer → PreviewBuffer
unfolding flush
push_admitted u b =
    let drop = record b { dropped = b.dropped ++ ((u ∷ []) ∷ []) } in
    if ltb b.max_bytes (b.measure u + 2)
    then drop
    else if not (is_empty b.updates) && ltb b.max_bytes (b.bytes + b.measure u + 1)
    then (if is_idle b.draining then check_limits (store u (flush b)) else drop)
    else check_limits (store u b)

unfoldable pub push : PreviewUpdate → PreviewBuffer → Result BufferError PreviewBuffer
unfolding push_admitted
push u b = do
  guard (not b.disposed) buffer_disposed
  guard (update_schema u) invalid_update
  ok (push_admitted u b)
