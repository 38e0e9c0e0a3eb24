-- ===== src/Contract/Interaction.antt =====
-- Interactions (src/contract/state.ts, and the resolutions of src/contract/command.ts).
use mosoo_agent_driver.Base.{String, Bool, true, false, Option, List, String-discrete, Json}
use mosoo_agent_driver.Contract.Common.{Timestamp, ProtocolError}
use mosoo_agent_driver.Contract.Content.{ContentBlock}
use mosoo_agent_driver.Contract.State.{Audience}

pub data PermissionResolution : Type 0 where
  selected : String → PermissionResolution
  permission_cancelled : PermissionResolution

pub data ToolResolution : Type 0 where
  tool_completed : List ContentBlock → Option Json → ToolResolution
  tool_failed : ProtocolError → ToolResolution
  tool_cancelled : ToolResolution

pub data InputResolution : Type 0 where
  -- the identities of the answered questions
  answered : List String → InputResolution
  input_cancelled : InputResolution

-- the effect and the scope are texts of their enumerations
pub record PermissionOption : Type 0 where
  pub id : String
  pub label : String
  pub description : Option String
  pub effect : String
  pub scope : String
  pub extensions : Option Json

pub PermissionOption-discrete : Discrete PermissionOption
PermissionOption-discrete = hlevel String-discrete

pub data PermissionSubject : Type 0 where
  item_subject : String → PermissionSubject
  resource_subject : String → List String → PermissionSubject
  extension_subject : String → Json → PermissionSubject

pub PermissionSubject-discrete : Discrete PermissionSubject
PermissionSubject-discrete = hlevel String-discrete

pub record PermissionRequest : Type 0 where
  pub title : String
  pub description : Option String
  pub subject : PermissionSubject
  pub options : List PermissionOption

pub PermissionRequest-discrete : Discrete PermissionRequest
PermissionRequest-discrete =
    hlevel (String-discrete, PermissionSubject-discrete, PermissionOption-discrete)

pub record QuestionChoice : Type 0 where
  pub id : String
  pub label : String
  pub description : Option String

pub QuestionChoice-discrete : Discrete QuestionChoice
QuestionChoice-discrete = hlevel String-discrete

pub data QuestionType : Type 0 where
  text_question secret_question confirm_question : QuestionType
  single_select multi_select : List QuestionChoice → Option Bool → QuestionType

Bool-discrete : Discrete Bool
Bool-discrete = hlevel

pub QuestionType-discrete : Discrete QuestionType
QuestionType-discrete = hlevel (QuestionChoice-discrete, Bool-discrete)

pub record InputQuestion : Type 0 where
  pub id : String
  pub prompt : String
  pub required : Bool
  pub question_type : QuestionType

pub InputQuestion-discrete : Discrete InputQuestion
InputQuestion-discrete = hlevel (String-discrete, Bool-discrete, QuestionType-discrete)

pub data InteractionRequest : Type 0 where
  permission_request : PermissionRequest → InteractionRequest
  input_request : List InputQuestion → InteractionRequest
  tool_request : String → Option Json → InteractionRequest
  -- the name of the extension and its request
  extension_request : String → Json → InteractionRequest

pub InteractionRequest-discrete : Discrete InteractionRequest
InteractionRequest-discrete =
    hlevel (PermissionRequest-discrete, InputQuestion-discrete, String-discrete)

pub data Resolution : Type 0 where
  permission_resolution : PermissionResolution → Resolution
  input_resolution : InputResolution → Resolution
  tool_resolution : ToolResolution → Resolution
  extension_resolution : Json → Resolution

pub data InteractionStatus : Type 0 where
  open_interaction resolved expired : InteractionStatus

pub InteractionStatus-discrete : Discrete InteractionStatus
InteractionStatus-discrete = hlevel

pub data InteractionKind : Type 0 where
  permission_kind input_kind tool_kind extension_kind : InteractionKind

abbrev pub request_kind : InteractionRequest → InteractionKind
request_kind (permission_request r) = permission_kind
request_kind (input_request q) = input_kind
request_kind (tool_request n i) = tool_kind
request_kind (extension_request n r) = extension_kind

-- The kind is that of the request.
pub record Interaction : Type 0 where
  pub id : String
  pub run_id : String
  pub item_id : Option String
  pub status : InteractionStatus
  pub blocking : Bool
  pub created_at : Timestamp
  pub expires_at : Timestamp
  pub ended_at : Option Timestamp
  pub audience : Audience
  pub provenance : Option Json
  pub extensions : Option Json
  pub request : InteractionRequest
  pub resolution : Option Resolution

abbrev pub is_open : InteractionStatus → Bool
is_open open_interaction = true
is_open _ = false

abbrev pub is_resolved : InteractionStatus → Bool
is_resolved resolved = true
is_resolved _ = false
