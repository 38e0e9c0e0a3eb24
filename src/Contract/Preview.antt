-- ===== src/Contract/Preview.antt =====
-- Previews (src/contract/preview.ts): the updates of a stream of text, what a reader makes of them,
-- and how a writer merges those that it has not sent yet.
pub mod Streams
pub mod Coalesce
pub mod Rounds
pub mod Coalesced
pub mod Buffer
pub mod Bounds
pub mod Admission
mod Examples
use mosoo_agent_driver.Base.{
  ℕ, ◌+◌, String, Bool, true, false, ◌&&◌, ◌||◌, Option, none, some, List, [], ◌∷◌, ◌++◌, length,
  str_append, get_elem?, set, ltb, leb, ◌==◌, str_eq, if◌then◌else◌, or_else, is_some, not,
}

-- the item, the stream, the channel and the segment, which `previewKeyOf` prints
pub record PreviewKey : Type 0 where
  pub item_id : String
  pub stream_id : String
  pub channel : String
  pub segment : ℕ

unfoldable pub same_key : PreviewKey → PreviewKey → Bool
same_key a b =
    str_eq a.item_id b.item_id
    && str_eq a.stream_id b.stream_id
    && str_eq a.channel b.channel
    && a.segment == b.segment

-- `append` has the first sequence number that it covers
pub data PreviewOp : Type 0 where
  append : ℕ → PreviewOp
  replace : PreviewOp

pub record PreviewUpdate : Type 0 where
  pub key : PreviewKey
  pub op : PreviewOp
  pub through_sequence : ℕ
  pub text : String

-- the refinement of `appendPreviewSchema`, with its bounds
abbrev pub op_schema : PreviewOp → ℕ → String → Bool
op_schema (append from_sequence) through text =
    ltb 0 from_sequence && leb from_sequence through && not (str_eq text "")
op_schema replace through text = ltb 0 through

unfoldable pub update_schema : PreviewUpdate → Bool
update_schema u = op_schema u.op u.through_sequence u.text

pub record PreviewStreamState : Type 0 where
  pub text : Option String
  pub through_sequence : ℕ

pub data PreviewStatus : Type 0 where
  applied duplicate gap : PreviewStatus

-- `current?.throughSequence ?? 0`
abbrev pub sequence_of : Option PreviewStreamState → ℕ
sequence_of none = 0
sequence_of (some s) = s.through_sequence

-- `current?.text ?? ""`
abbrev pub text_of : Option PreviewStreamState → String
text_of none = ""
text_of (some s) = or_else s.text ""

abbrev pub max : ℕ → ℕ → ℕ
max a b = if leb a b then b else a

-- `current !== undefined && current.text === undefined`
abbrev pub is_broken : Option PreviewStreamState → Bool
is_broken none = false
is_broken (some s) = not (is_some s.text)

-- an update that the reader has already
unfoldable pub is_duplicate : Option PreviewStreamState → PreviewOp → ℕ → Bool
is_duplicate none op through = false
is_duplicate (some s) replace through = ltb through s.through_sequence
is_duplicate (some s) (append from_sequence) through = leb through s.through_sequence

-- a new update: what it makes of the stream
unfoldable pub apply_new :
    Option PreviewStreamState → PreviewOp → ℕ → String → PreviewStatus × PreviewStreamState
apply_new current replace through text =
    (applied, record { text = some text; through_sequence = through })
apply_new current (append from_sequence) through text =
    if not (from_sequence == sequence_of current + 1) || is_broken current
    then (gap, record { text = none; through_sequence = max (sequence_of current) through })
    else (
      applied,
      record { text = some (str_append (text_of current) text); through_sequence = through },
    )

-- `applyPreviewUpdate`; a duplicate leaves the state that there is
unfoldable pub apply_preview_update :
    Option PreviewStreamState → PreviewUpdate → PreviewStatus × Option PreviewStreamState
unfolding is_duplicate apply_new
apply_preview_update current u =
    if is_duplicate current u.op u.through_sequence
    then (duplicate, current)
    else let (status, state) = apply_new current u.op u.through_sequence u.text in
      (status, some state)

-- `mergePreviewUpdates` of updates of one stream
unfoldable pub merge_ops : PreviewUpdate → PreviewUpdate → PreviewOp → Option PreviewUpdate
merge_ops previous next replace =
    some (if ltb next.through_sequence previous.through_sequence then previous else next)
merge_ops previous next (append from_sequence) =
    if from_sequence == previous.through_sequence + 1
    then some (record previous {
      text = str_append previous.text next.text;
      through_sequence = next.through_sequence;
    })
    else none

unfoldable pub merge_preview_updates : PreviewUpdate → PreviewUpdate → Option PreviewUpdate
unfolding same_key merge_ops
merge_preview_updates previous next =
    if same_key previous.key next.key then merge_ops previous next next.op else none

-- `lastIndexByKey.get(key)`, of a map that holds the latest entry of a key first
unfoldable pub last_index : List (PreviewKey × ℕ) → PreviewKey → Option ℕ
unfolding same_key
last_index [] key = none
last_index ((k, i) ∷ rest) key = if same_key k key then some i else last_index rest key

pub record Coalescing : Type 0 where
  pub output : List PreviewUpdate
  pub index : List (PreviewKey × ℕ)

-- `previousIndex === undefined ? undefined : …`
abbrev pub merged_at : List PreviewUpdate → PreviewUpdate → ℕ → Option PreviewUpdate
merged_at output u i = elim (get_elem? output i) [
  | none ↦ none
  | some previous ↦ merge_preview_updates previous u
]

abbrev pub pushed : Coalescing → PreviewUpdate → Coalescing
pushed c u = record { output = c.output ++ (u ∷ []); index = (u.key, length c.output) ∷ c.index }

abbrev pub written : Coalescing → PreviewUpdate → ℕ → Option PreviewUpdate → Coalescing
written c u i none = pushed c u
written c u i (some m) = record c { output = set c.output i m }

abbrev pub coalesce_at : Coalescing → PreviewUpdate → Option ℕ → Coalescing
coalesce_at c u none = pushed c u
coalesce_at c u (some i) = written c u i (merged_at c.output u i)

-- one round of the loop
unfoldable pub coalesce_one : Coalescing → PreviewUpdate → Coalescing
unfolding last_index merge_preview_updates
coalesce_one c u = coalesce_at c u (last_index c.index u.key)

unfoldable pub coalesce_from : Coalescing → List PreviewUpdate → Coalescing
unfolding coalesce_one
coalesce_from c [] = c
coalesce_from c (u ∷ us) = coalesce_from (coalesce_one c u) us

-- `coalescePreviewUpdates`
unfoldable pub coalesce_preview_updates : List PreviewUpdate → List PreviewUpdate
unfolding coalesce_from
coalesce_preview_updates us = (coalesce_from (record { output = []; index = [] }) us).output
