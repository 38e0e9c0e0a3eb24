-- ===== src/Contract/Preview/Bounds.antt =====
-- The bounds of the buffer of previews, and that nothing waits in it for good
-- (`createPreviewBuffer` of src/contract/preview.ts).
use mosoo_agent_driver.Base.{
  ℕ, suc, ◌+◌, ◌≤◌, ◌<◌, ◌≡◌, refl, ap, ◌∙◌, ◌⊎◌, inl, inr, Bool, true, false, not, ◌&&◌, List, [],
  ◌∷◌, ◌++◌, length, ltb, if◌then◌else◌, Result, ok, err, arith,
}
use mosoo_agent_driver.Contract.Preview.{PreviewUpdate}
use mosoo_agent_driver.Contract.Preview.Buffer.{
  PreviewBuffer, BufferError, drain, is_idle, flush, flush_settles, drain_ends, timer_fires,
  dispose, is_empty, check_limits, store, push_admitted, push, create_preview_buffer,
}

-- what a caller and the runtime do to a buffer
pub data Event : Type 0 where
  pushes : PreviewUpdate → Event
  flushes settles ends fires disposes : Event

-- a push that throws changes nothing
abbrev pub kept : PreviewBuffer → Result BufferError PreviewBuffer → PreviewBuffer
kept b (ok t) = t
kept b (err e) = b

unfoldable pub apply : PreviewBuffer → Event → PreviewBuffer
unfolding push flush flush_settles drain_ends timer_fires dispose
apply b (pushes u) = kept b (push u b)
apply b flushes = flush b
apply b settles = flush_settles b
apply b ends = drain_ends b
apply b fires = timer_fires b
apply b disposes = dispose b

unfoldable pub apply_all : PreviewBuffer → List Event → PreviewBuffer
apply_all b [] = b
apply_all b (e ∷ es) = apply_all (apply b e) es

-- the bytes of the updates, with the commas that separate them
abbrev sum : (PreviewUpdate → ℕ) → List PreviewUpdate → ℕ
sum measure [] = 0
sum measure (u ∷ us) = measure u + 1 + sum measure us

-- `jsonByteLength` of the array of the updates, and 0 of none
abbrev pub array_bytes : (PreviewUpdate → ℕ) → List PreviewUpdate → ℕ
array_bytes measure [] = 0
array_bytes measure (u ∷ us) = sum measure (u ∷ us) + 1

sum-push :
    (measure : PreviewUpdate → ℕ) (us : List PreviewUpdate) (u : PreviewUpdate)
    → sum measure (us ++ (u ∷ [])) ≡ sum measure us + measure u + 1
sum-push measure [] u = omega arith
sum-push measure (x ∷ xs) u = omega (arith, sum-push measure xs u)

length-push :
    (us : List PreviewUpdate) (u : PreviewUpdate) → length (us ++ (u ∷ [])) ≡ suc (length us)
length-push [] u = refl
length-push (x ∷ xs) u = ap suc (length-push xs u)

array_bytes-push :
    (measure : PreviewUpdate → ℕ) (us : List PreviewUpdate) (u : PreviewUpdate)
    → array_bytes measure (us ++ (u ∷ []))
      ≡ (if is_empty us then measure u + 2 else array_bytes measure us + measure u + 1)
array_bytes-push measure [] u = omega arith
array_bytes-push measure (x ∷ xs) u = omega (arith, sum-push measure xs u)

pub record IsBounded (b : PreviewBuffer) : Type 0 where
  pub positive : (1 ≤ b.max_bytes) × (1 ≤ b.max_updates)
  pub counted : b.bytes ≡ array_bytes b.measure b.updates
  pub few : length b.updates < b.max_updates
  pub small : b.bytes < b.max_bytes
  -- while the buffer is not disposed, buffered updates wait for the timer or for a flush that is due
  pub awaited :
      b.disposed ≡ false
      → is_empty b.updates ≡ false
      → (b.timer ≡ true) ⊎ (b.flush_requested ≡ true)
  pub due : b.disposed ≡ false → b.flush_requested ≡ true → is_idle b.draining ≡ false
  pub gone : b.disposed ≡ true → is_empty b.updates ≡ true

-- the buffer before a flush: within its bounds, or full and about to be emptied
abbrev IsFlushable : PreviewBuffer → Type 0
IsFlushable b =
    ((length b.updates < b.max_updates) × (b.bytes < b.max_bytes))
    ⊎ ((is_idle b.draining ≡ true) × (b.disposed ≡ false))

flush-IsBounded :
    (b : PreviewBuffer)
    → (1 ≤ b.max_bytes) × (1 ≤ b.max_updates)
    → b.bytes ≡ array_bytes b.measure b.updates
    → (b.disposed ≡ true → is_empty b.updates ≡ true)
    → IsFlushable b
    → IsBounded (flush b)
unfolding flush drain
flush-IsBounded b p c g (inl (few, small)) = ground arith
flush-IsBounded b p c g (inr (free, alive)) = ground arith

flush-disposed : (b : PreviewBuffer) → (flush b).disposed ≡ b.disposed
unfolding flush drain
flush-disposed b = ground arith

check_limits-IsBounded :
    (b : PreviewBuffer)
    → (1 ≤ b.max_bytes) × (1 ≤ b.max_updates)
    → b.bytes ≡ array_bytes b.measure b.updates
    → b.disposed ≡ false
    → (b.flush_requested ≡ true → is_idle b.draining ≡ false)
    → IsBounded (check_limits b)
unfolding flush drain
check_limits-IsBounded b p c alive due = ground arith

store-IsBounded :
    (u : PreviewUpdate) (b : PreviewBuffer)
    → b.disposed ≡ false
    → IsBounded b
    → IsBounded (check_limits (store u b))
store-IsBounded u b alive v =
    check_limits-IsBounded (store u b) v.positive
      (ground (arith, v.counted, array_bytes-push b.measure b.updates u)) alive (v.due alive)

push_admitted-IsBounded :
    (u : PreviewUpdate) (b : PreviewBuffer)
    → b.disposed ≡ false
    → IsBounded b
    → IsBounded (push_admitted u b)
unfolding push_admitted
push_admitted-IsBounded u b alive v =
    decide (ltb b.max_bytes (b.measure u + 2))
      (not (is_empty b.updates) && ltb b.max_bytes (b.bytes + b.measure u + 1)) (is_idle b.draining)
  where
    dropped : IsBounded (record b { dropped = b.dropped ++ ((u ∷ []) ∷ []) })
    dropped = ground arith

    emptied : IsBounded (flush b)
    emptied = flush-IsBounded b v.positive v.counted v.gone (inl (v.few, v.small))

    decide :
        (large full free : Bool)
        → IsBounded (
            if large
            then record b { dropped = b.dropped ++ ((u ∷ []) ∷ []) }
            else if full
            then (if free
                then check_limits (store u (flush b))
                else record b { dropped = b.dropped ++ ((u ∷ []) ∷ []) })
            else check_limits (store u b))
    decide true full free = dropped
    decide false true true = store-IsBounded u (flush b) (flush-disposed b ∙ alive) emptied
    decide false true false = dropped
    decide false false free = store-IsBounded u b alive v

apply-IsBounded : (b : PreviewBuffer) (e : Event) → IsBounded b → IsBounded (apply b e)
unfolding apply push flush flush_settles drain_ends timer_fires dispose drain
apply-IsBounded b (pushes u) v = ground (arith, push_admitted-IsBounded u b)
apply-IsBounded b flushes v = flush-IsBounded b v.positive v.counted v.gone (inl (v.few, v.small))
apply-IsBounded b settles v = ground arith
apply-IsBounded b ends v = ground arith
apply-IsBounded b fires v = ground arith
apply-IsBounded b disposes v = ground arith

apply_all-IsBounded :
    (b : PreviewBuffer) (es : List Event) → IsBounded b → IsBounded (apply_all b es)
unfolding apply_all
apply_all-IsBounded b [] v = v
apply_all-IsBounded b (e ∷ es) v = apply_all-IsBounded (apply b e) es (apply-IsBounded b e v)

created-IsBounded :
    (max_bytes max_delay_ms max_updates : ℕ) (measure : PreviewUpdate → ℕ) (b : PreviewBuffer)
    → create_preview_buffer max_bytes max_delay_ms max_updates measure ≡ ok b
    → IsBounded b
unfolding create_preview_buffer
created-IsBounded mb md mu measure b h = ground arith

-- After any pushes, flushes, settlements, timer events and disposals of a new buffer, `bytes` is the
-- encoded size of the array of its updates, it is below the limit, and the updates are fewer than
-- their limit. Unless the buffer is disposed, buffered updates wait for the timer or for a flush that
-- is requested, and a flush that is requested has a drain under way; a disposed buffer is empty.
pub buffer-IsBounded :
    (max_bytes max_delay_ms max_updates : ℕ) (measure : PreviewUpdate → ℕ) (b : PreviewBuffer)
    (es : List Event)
    → create_preview_buffer max_bytes max_delay_ms max_updates measure ≡ ok b
    → IsBounded (apply_all b es)
buffer-IsBounded mb md mu measure b es h =
    apply_all-IsBounded b es (created-IsBounded mb md mu measure b h)
