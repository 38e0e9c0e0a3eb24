-- ===== src/Settlement/Examples.antt =====
-- Tests of the settlement of an MCP tool call (src/core/external-tool-effect-settlement.ts): a receipt
-- that does not fit.
use mosoo_agent_driver.Base.{ℕ, ◌≡◌, refl, none, some, ok, is_some, if◌then◌else◌}
use mosoo_agent_driver.Settlement.{
  McpResultIdentity, McpExternalToolExecutionResult, Settlement, create_omitted_settlement,
  require_durable_mcp_result_identity, create_durable_mcp_succeeded_settlement, IsDurable,
  settlement-IsDurable,
}

abbrev identity : McpResultIdentity
identity = record { request_id = "r"; server_id = "s"; tool_name = "t" }

abbrev execution : McpExternalToolExecutionResult
execution = record {
  is_error = none;
  output_text = "done";
  provider_receipt_json = some (some "{}");
}

-- a size for which a receipt is too long
abbrev measure : Settlement → ℕ
measure s = if is_some s.provider_receipt_json then 2000000 else 100

without_receipt :
    (create_durable_mcp_succeeded_settlement measure execution identity).provider_receipt_json
    ≡ none
unfolding create_durable_mcp_succeeded_settlement
without_receipt = refl

identity_settleable : require_durable_mcp_result_identity measure identity ≡ ok identity
unfolding require_durable_mcp_result_identity create_omitted_settlement
identity_settleable = refl

settlement-IsDurable_example :
    IsDurable measure execution identity
      (create_durable_mcp_succeeded_settlement measure execution identity)
settlement-IsDurable_example =
    settlement-IsDurable measure execution identity identity identity_settleable
