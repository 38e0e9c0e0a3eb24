-- ===== src/Contract/Snapshot.antt =====
-- A session's snapshot, mutations, and the parts of their schemas that relate several fields
-- (src/contract/state.ts, src/contract/mutation.ts, src/contract/content-admission.ts).
use mosoo_agent_driver.Base.{
  ℕ, ◌==◌, String, Bool, true, false, not, ◌&&◌, Option, none, some, List, [], ◌∷◌, ◌++◌, is_some,
  same_bool, every, Json,
}
use mosoo_agent_driver.Contract.Common.{Timestamp}
use mosoo_agent_driver.Contract.Content.{ContentBlock}
use mosoo_agent_driver.Contract.State.{
  Session, Run, Item, Status, is_active, failed, ItemBody, message, reasoning, plan, tool, terminal,
  change, artifact, item_extension, FileChange, move, FileOperation,
}
use mosoo_agent_driver.Contract.Interaction.{
  Interaction, is_open, is_resolved, InteractionRequest, permission_request, input_request,
  tool_request, extension_request, Resolution, permission_resolution, input_resolution,
  tool_resolution, tool_completed, extension_resolution,
}

pub record SessionSnapshot : Type 0 where
  pub protocol_version : ℕ
  pub revision : ℕ
  pub captured_at : Timestamp
  pub session : Session
  pub runs : List Run
  pub items : List Item
  pub interactions : List Interaction

pub data RemoveReason : Type 0 where
  compacted expired redacted : RemoveReason

pub data AuthorityOperation : Type 0 where
  put_session : Session → AuthorityOperation
  put_run : Run → AuthorityOperation
  put_item : Item → AuthorityOperation
  put_interaction : Interaction → AuthorityOperation
  remove_run : String → RemoveReason → AuthorityOperation

pub data MutationCause : Type 0 where
  command alarm system : String → MutationCause
  provider : Option String → MutationCause

pub record CommittedMutation : Type 0 where
  pub mutation_id : String
  pub session_id : String
  pub base_revision : ℕ
  pub cause : MutationCause
  pub operations : List AuthorityOperation
  pub extensions : Option Json
  pub revision : ℕ
  pub committed_at : Timestamp

abbrev is_failed : Status → Bool
is_failed failed = true
is_failed _ = false

abbrev is_move : FileOperation → Bool
is_move move = true
is_move _ = false

-- the refinement of `fileChangeSchema`
file_change_schema : FileChange → Bool
file_change_schema c = same_bool (is_move c.operation) (is_some c.old_path)

abbrev changes_schema : ItemBody → Bool
unfolding file_change_schema
changes_schema (change cs) = every file_change_schema cs
changes_schema _ = true

-- the refinements of `itemSchema`
unfoldable pub item_schema : Item → Bool
unfolding file_change_schema
item_schema i =
    same_bool (not (is_active i.status)) (is_some i.ended_at)
    && same_bool (is_failed i.status) (is_some i.error)
    && changes_schema i.body

-- the variant of `resolution` that each kind of interaction has
abbrev resolution_fits : InteractionRequest → Option Resolution → Bool
resolution_fits r none = true
resolution_fits (permission_request r) (some (permission_resolution x)) = true
resolution_fits (input_request r) (some (input_resolution x)) = true
resolution_fits (tool_request n i) (some (tool_resolution x)) = true
resolution_fits (extension_request n r) (some (extension_resolution x)) = true
resolution_fits _ (some _) = false

-- the refinements of `interactionSchema`
unfoldable pub interaction_schema : Interaction → Bool
interaction_schema i =
    resolution_fits i.request i.resolution
    && same_bool (is_resolved i.status) (is_some i.resolution)
    && same_bool (not (is_open i.status)) (is_some i.ended_at)

unfoldable pub snapshot_schema : SessionSnapshot → Bool
unfolding item_schema interaction_schema
snapshot_schema s =
    s.protocol_version == 3 && every item_schema s.items && every interaction_schema s.interactions

-- The schemas of a mutation: `operations` is not empty, and the values put fit theirs.
abbrev pub operation_schema : AuthorityOperation → Bool
unfolding item_schema interaction_schema
operation_schema (put_item i) = item_schema i
operation_schema (put_interaction i) = interaction_schema i
operation_schema _ = true

abbrev pub is_empty {ℓ} : {A : Type ℓ} → List A → Bool
is_empty [] = true
is_empty (x ∷ xs) = false

unfoldable pub mutation_schema : CommittedMutation → Bool
unfolding item_schema interaction_schema
mutation_schema m = not (is_empty m.operations) && every operation_schema m.operations

abbrev pub list_of {ℓ} : {A : Type ℓ} → Option (List A) → List A
list_of none = []
list_of (some xs) = xs

abbrev diffs : List FileChange → List ContentBlock
diffs [] = []
diffs (c ∷ cs) = elim c.diff [ none ↦ diffs cs | some d ↦ d ∷ diffs cs ]

unfoldable pub item_content : Item → List ContentBlock
item_content i = elim i.body [
  | message r p content ↦ content
  | reasoning content ↦ content
  | artifact n d content ↦ content
  | tool t ↦ list_of t.output
  | terminal t ↦ t.stdout ++ t.stderr
  | change cs ↦ diffs cs
  | item_extension n v ↦ []
  | plan e x ↦ []
]

abbrev resolution_content : Option Resolution → List ContentBlock
resolution_content (some (tool_resolution (tool_completed output x))) = output
resolution_content _ = []

unfoldable pub interaction_content : Interaction → List ContentBlock
interaction_content i = elim i.request [
  | tool_request n x ↦ resolution_content i.resolution
  | _ ↦ []
]

abbrev pub flat_map {ℓ κ} : {A : Type ℓ} {B : Type κ} → (A → List B) → List A → List B
flat_map f [] = []
flat_map f (x ∷ xs) = f x ++ flat_map f xs

unfoldable pub state_content : List Run → List Item → List Interaction → List ContentBlock
unfolding item_content interaction_content
state_content runs items interactions =
    flat_map (λ (r : Run). r.input) runs
    ++ (flat_map item_content items ++ flat_map interaction_content interactions)
