-- ===== src/Contract/Preview/Streams.antt =====
-- A stream of previews (`applyPreviewUpdate` of src/contract/preview.ts), and what a merge of two
-- updates keeps (`mergePreviewUpdates`).
use mosoo_agent_driver.Base.{
  ℕ, ◌≡◌, String, true, false, Option, none, some, or_else, arith, str_append_assoc,
}
use mosoo_agent_driver.Contract.Preview.{
  PreviewUpdate, PreviewKey, PreviewOp, append, replace, update_schema, PreviewStreamState,
  is_duplicate, apply_preview_update, merge_ops, merge_preview_updates,
}

-- the state of the stream after an update
abbrev pub after : Option PreviewStreamState → PreviewUpdate → Option PreviewStreamState
unfolding apply_preview_update
after current u = (apply_preview_update current u).1

-- the cases of a merge, by the two operations
merge_cases :
    (current : Option PreviewStreamState) (k l : PreviewKey) (p_op n_op : PreviewOp) (b c : ℕ)
    (p_text n_text : String) (m : PreviewUpdate)
    → update_schema (record { key = l; op = n_op; through_sequence = c; text = n_text }) ≡ true
    → merge_ops
        (record { key = k; op = p_op; through_sequence = b; text = p_text })
        (record { key = l; op = n_op; through_sequence = c; text = n_text })
        n_op
      ≡ some m
    → is_duplicate current p_op b ≡ false
    → after
        (after current (record { key = k; op = p_op; through_sequence = b; text = p_text }))
        (record { key = l; op = n_op; through_sequence = c; text = n_text })
      ≡ after current m
unfolding apply_preview_update merge_ops update_schema
merge_cases none k l (append f) replace b c pt nt m v h d = ground arith
merge_cases none k l replace replace b c pt nt m v h d = ground arith
merge_cases none k l (append f) (append g) b c pt nt m v h d =
    ground (arith, str_append_assoc "" pt nt)
merge_cases none k l replace (append g) b c pt nt m v h d = ground arith
merge_cases (some s) k l (append f) replace b c pt nt m v h d = ground arith
merge_cases (some s) k l replace replace b c pt nt m v h d = ground arith
merge_cases (some s) k l (append f) (append g) b c pt nt m v h d =
    ground (arith, str_append_assoc (or_else s.text "") pt nt)
merge_cases (some s) k l replace (append g) b c pt nt m v h d = ground arith

-- When two updates of a stream merge and the reader does not have the first, it makes the same of the
-- merged update as of the two: the same text, the same last sequence number, the same gap.
pub merge_keeps_state :
    (current : Option PreviewStreamState) (previous next merged : PreviewUpdate)
    → update_schema next ≡ true
    → merge_preview_updates previous next ≡ some merged
    → is_duplicate current previous.op previous.through_sequence ≡ false
    → after (after current previous) next ≡ after current merged
unfolding merge_preview_updates
merge_keeps_state current previous next merged valid merges new =
    merge_cases current previous.key next.key previous.op next.op previous.through_sequence
      next.through_sequence previous.text next.text merged valid (same_stream merges) new
  where
    same_stream :
        merge_preview_updates previous next ≡ some merged
        → merge_ops previous next next.op ≡ some merged
    same_stream h = ground arith
