-- ===== src/Settlement.antt =====
-- The settlement of an MCP tool call (src/core/external-tool-effect-settlement.ts). The size of an
-- encoded settlement, `measureRuntimeCommandJson`, is a parameter.
mod Examples
use mosoo_agent_driver.Base.{
  ℕ, ◌≤◌, ◌≡◌, refl, subst, ◌⊎◌, inl, inr, String, Bool, true, false, not, Option, none, some, leb,
  leb→le, ltb, if◌then◌else◌, is_some, Result, ok, err, guard, ◌>>=◌, ◌>>◌, arith, guard-eq-ok,
}

pub record McpResultIdentity : Type 0 where
  pub request_id : String
  pub server_id : String
  pub tool_name : String

-- The receipt of the provider may be null, `some none`, or left out, `none`.
pub record McpExternalToolExecutionResult : Type 0 where
  pub is_error : Option Bool
  pub output_text : String
  pub provider_receipt_json : Option (Option String)

-- a settlement of the kind `succeeded`
pub record Settlement : Type 0 where
  pub provider_receipt_json : Option (Option String)
  pub is_error : Option Bool
  pub output_text : String
  pub identity : McpResultIdentity

pub data SettlementError : Type 0 where
  identity_exceeds_limit : SettlementError

abbrev pub oversized_mcp_output : String
oversized_mcp_output =
    "MCP tool output was omitted because its durable settlement exceeded the 1044480-byte limit."

unfoldable pub create_omitted_settlement : McpResultIdentity → Settlement
create_omitted_settlement identity = record {
  provider_receipt_json = none;
  is_error = some true;
  output_text = oversized_mcp_output;
  identity = identity;
}

abbrev pub runtime_command_terminal_payload_max_utf8_bytes : ℕ
runtime_command_terminal_payload_max_utf8_bytes = 1044480

module _ (measure : Settlement → ℕ) where
  unfoldable pub require_durable_mcp_result_identity :
      McpResultIdentity → Result SettlementError McpResultIdentity
  unfolding create_omitted_settlement
  require_durable_mcp_result_identity identity = do
    guard
        (not (
          ltb runtime_command_terminal_payload_max_utf8_bytes
            (measure (create_omitted_settlement identity))))
        identity_exceeds_limit
    ok identity

  unfoldable pub create_durable_mcp_succeeded_settlement :
      McpExternalToolExecutionResult → McpResultIdentity → Settlement
  unfolding create_omitted_settlement
  create_durable_mcp_succeeded_settlement execution identity =
      let settlement : Settlement = record {
        provider_receipt_json = execution.provider_receipt_json;
        is_error = execution.is_error;
        output_text = execution.output_text;
        identity = identity;
      } in
      let without_receipt : Settlement = record settlement { provider_receipt_json = none } in
      if leb (measure settlement) runtime_command_terminal_payload_max_utf8_bytes
      then settlement
      else if leb (measure without_receipt) runtime_command_terminal_payload_max_utf8_bytes
      then without_receipt
      else create_omitted_settlement identity

-- What the settlement of an execution is: it has the identity, it fits the limit, and its output is
-- that of the execution unless it is marked as an error.
pub record IsDurable (measure : Settlement → ℕ) (execution : McpExternalToolExecutionResult)
    (identity : McpResultIdentity) (s : Settlement) : Type 0 where
  pub same_identity : s.identity ≡ identity
  pub fits : measure s ≤ 1044480
  pub honest :
      ((s.output_text ≡ execution.output_text) × (s.is_error ≡ execution.is_error))
      ⊎ (s.is_error ≡ some true)
  pub receipt :
      (s.provider_receipt_json ≡ execution.provider_receipt_json) ⊎ (s.provider_receipt_json ≡ none)

-- For an identity that was found settleable before the call, the settlement of whatever the provider
-- returns fits the byte limit and has that identity; its output and its error mark are the provider's,
-- or it is marked as an error, and its receipt is the provider's or left out.
pub settlement-IsDurable :
    (measure : Settlement → ℕ) (execution : McpExternalToolExecutionResult)
    (command identity : McpResultIdentity)
    → require_durable_mcp_result_identity measure command ≡ ok identity
    → IsDurable measure execution command
        (create_durable_mcp_succeeded_settlement measure execution identity)
unfolding require_durable_mcp_result_identity create_durable_mcp_succeeded_settlement
    create_omitted_settlement
settlement-IsDurable measure execution command identity h =
    let (fits, same) =
      guard-eq-ok (not (ltb 1044480 (measure (create_omitted_settlement command))))
        identity_exceeds_limit (ok command) h in
    let same_identity : command ≡ identity = cc in
    subst
      (λ x.
        IsDurable measure execution command
          (create_durable_mcp_succeeded_settlement measure execution x))
      same_identity
      (by_size (leb (measure (full execution.provider_receipt_json)) 1044480) refl
        (leb (measure (full none)) 1044480) refl ground arith)
  where
    full : Option (Option String) → Settlement
    full receipt = record {
      provider_receipt_json = receipt;
      is_error = execution.is_error;
      output_text = execution.output_text;
      identity = command;
    }

    by_size :
        (b : Bool)
        → leb (measure (full execution.provider_receipt_json)) 1044480 ≡ b
        → (c : Bool) → leb (measure (full none)) 1044480 ≡ c
        → measure (create_omitted_settlement command) ≤ 1044480
        → IsDurable measure execution command (
            if b
            then full execution.provider_receipt_json
            else if c
            then full none
            else create_omitted_settlement command)
    by_size true e c k h = record {
      same_identity = refl;
      fits = leb→le (measure (full execution.provider_receipt_json)) 1044480 e;
      honest = inl (refl, refl);
      receipt = inl refl;
    }
    by_size false e true k h = record {
      same_identity = refl;
      fits = leb→le (measure (full none)) 1044480 k;
      honest = inl (refl, refl);
      receipt = inr refl;
    }
    by_size false e false k h = record {
      same_identity = refl;
      fits = h;
      honest = inr refl;
      receipt = inr refl;
    }
