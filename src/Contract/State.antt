-- ===== src/Contract/State.antt =====
-- Sessions, runs and items (src/contract/state.ts). A field that every variant of a union has stands
-- in the record, the rest in the variant.
use mosoo_agent_driver.Base.{
  ℕ, String, Bool, true, false, Option, none, some, List, String-discrete, ℕ_discrete, Json,
}
use mosoo_agent_driver.Contract.Common.{
  Timestamp, Timestamp-discrete, Number, ProtocolError, ProtocolError-discrete,
}
use mosoo_agent_driver.Contract.Content.{ContentBlock, ContentBlock-discrete}

pub record SelectChoice : Type 0 where
  pub id : String
  pub label : String
  pub description : Option String

pub data ConfigValue : Type 0 where
  boolean : Bool → ConfigValue
  string : String → ConfigValue
  -- the value, its least and its greatest
  number : Number → Option Number → Option Number → ConfigValue
  select : String → List SelectChoice → ConfigValue

pub record ConfigOption : Type 0 where
  pub id : String
  pub label : String
  pub description : Option String
  pub category : Option String
  pub extensions : Option Json
  pub value : ConfigValue

pub data SessionStatus : Type 0 where
  open_session closed_session : SessionStatus

pub SessionStatus-discrete : Discrete SessionStatus
SessionStatus-discrete = hlevel

pub record SessionParent : Type 0 where
  pub session_id : String
  pub revision : ℕ

pub SessionParent-discrete : Discrete SessionParent
SessionParent-discrete = hlevel (String-discrete, ℕ_discrete)

pub record Session : Type 0 where
  pub id : String
  pub status : SessionStatus
  pub created_at : Timestamp
  pub updated_at : Timestamp
  pub closed_at : Option Timestamp
  pub title : Option String
  pub cwd : Option String
  pub capabilities : List (String × Json)
  pub config : List ConfigOption
  pub parent : Option SessionParent
  pub provenance : Option Json
  pub extensions : Option Json

pub record Cost : Type 0 where
  pub amount : Number
  pub currency : String

pub record TokenUsage : Type 0 where
  pub input : Option ℕ
  pub output : Option ℕ
  pub cached_input : Option ℕ
  pub cached_write : Option ℕ
  pub reasoning : Option ℕ
  pub total : Option ℕ
  pub cost : Option Cost

pub data Origin : Type 0 where
  user agent system : Origin

pub Origin-discrete : Discrete Origin
Origin-discrete = hlevel

pub data FinishReason : Type 0 where
  success limit refusal other : FinishReason

pub data RunOutcome : Type 0 where
  running : RunOutcome
  run_completed : Timestamp → FinishReason → RunOutcome
  run_failed : Timestamp → ProtocolError → RunOutcome
  run_cancelled : Timestamp → Option String → RunOutcome

pub record Run : Type 0 where
  pub id : String
  pub origin : Origin
  pub input : List ContentBlock
  pub started_at : Timestamp
  pub parent_run_id : Option String
  pub retry_of : Option String
  pub usage : Option TokenUsage
  pub provenance : Option Json
  pub extensions : Option Json
  pub outcome : RunOutcome

-- the `status` of runs and of items
pub data Status : Type 0 where
  active completed failed cancelled : Status

pub Status-discrete : Discrete Status
Status-discrete = hlevel

abbrev pub run_status : Run → Status
run_status run = elim run.outcome [
  | running ↦ active
  | run_completed t r ↦ completed
  | run_failed t e ↦ failed
  | run_cancelled t r ↦ cancelled
]

-- `"endedAt" in run ? run.endedAt : undefined`
abbrev pub run_ended_at : Run → Option Timestamp
run_ended_at run = elim run.outcome [
  | running ↦ none
  | run_completed t r ↦ some t
  | run_failed t e ↦ some t
  | run_cancelled t r ↦ some t
]

abbrev pub is_active : Status → Bool
is_active active = true
is_active _ = false

pub data Role : Type 0 where
  user_role agent_role : Role

pub Role-discrete : Discrete Role
Role-discrete = hlevel

-- the entry's identity, text, status and priority
pub record PlanEntry : Type 0 where
  pub id : Option String
  pub text : String
  pub status : String
  pub priority : Option String

pub PlanEntry-discrete : Discrete PlanEntry
PlanEntry-discrete = hlevel String-discrete

pub record ToolLocation : Type 0 where
  pub path : String
  pub line : Option ℕ

pub ToolLocation-discrete : Discrete ToolLocation
ToolLocation-discrete = hlevel (String-discrete, ℕ_discrete)

pub data FileOperation : Type 0 where
  create update delete move : FileOperation

pub FileOperation-discrete : Discrete FileOperation
FileOperation-discrete = hlevel

pub record FileChange : Type 0 where
  pub operation : FileOperation
  pub path : String
  pub old_path : Option String
  pub diff : Option ContentBlock

pub FileChange-discrete : Discrete FileChange
FileChange-discrete = hlevel (FileOperation-discrete, String-discrete, ContentBlock-discrete)

-- the record of a tool call; the category and the origin are texts of their enumerations
pub record ToolBody : Type 0 where
  pub name : String
  pub title : Option String
  pub category : String
  pub origin : String
  pub server : Option String
  pub input : Option Json
  pub output : Option (List ContentBlock)
  pub structured_output : Option Json
  pub locations : Option (List ToolLocation)
  pub terminal_item_id : Option String

pub ToolBody-discrete : Discrete ToolBody
ToolBody-discrete = hlevel (String-discrete, ContentBlock-discrete, ToolLocation-discrete)

pub record TerminalBody : Type 0 where
  pub command : Option String
  pub cwd : Option String
  pub stdout : List ContentBlock
  pub stderr : List ContentBlock
  pub exit_code : Option Json
  pub signal : Option Json

pub TerminalBody-discrete : Discrete TerminalBody
TerminalBody-discrete = hlevel (String-discrete, ContentBlock-discrete)

pub data ItemBody : Type 0 where
  message : Role → Option String → List ContentBlock → ItemBody
  reasoning : List ContentBlock → ItemBody
  plan : List PlanEntry → Option String → ItemBody
  tool : ToolBody → ItemBody
  terminal : TerminalBody → ItemBody
  change : List FileChange → ItemBody
  artifact : Option String → Option String → List ContentBlock → ItemBody
  item_extension : String → Json → ItemBody

pub ItemBody-discrete : Discrete ItemBody
ItemBody-discrete = hlevel (
  Role-discrete, String-discrete, ContentBlock-discrete, PlanEntry-discrete, ToolBody-discrete,
  TerminalBody-discrete, FileChange-discrete,
)

pub data ItemKind : Type 0 where
  message_kind reasoning_kind plan_kind tool_kind terminal_kind change_kind : ItemKind
  artifact_kind extension_kind : ItemKind

unfoldable pub ItemKind-discrete : Discrete ItemKind
ItemKind-discrete = hlevel

abbrev pub body_kind : ItemBody → ItemKind
body_kind (message r p c) = message_kind
body_kind (reasoning c) = reasoning_kind
body_kind (plan e x) = plan_kind
body_kind (tool t) = tool_kind
body_kind (terminal t) = terminal_kind
body_kind (change c) = change_kind
body_kind (artifact n d c) = artifact_kind
body_kind (item_extension n v) = extension_kind

pub data Audience : Type 0 where
  participants operators : Audience

pub Audience-discrete : Discrete Audience
Audience-discrete = hlevel

pub record Item : Type 0 where
  pub id : String
  pub run_id : String
  pub status : Status
  pub created_at : Timestamp
  pub updated_at : Timestamp
  pub ended_at : Option Timestamp
  pub audience : Audience
  pub error : Option ProtocolError
  pub provenance : Option Json
  pub extensions : Option Json
  pub body : ItemBody

pub Item-discrete : Discrete Item
Item-discrete = hlevel (
  Status-discrete, Audience-discrete, String-discrete, Timestamp-discrete, ProtocolError-discrete,
  ItemBody-discrete,
)
