-- ===== src/Tools.antt =====
-- backend/app/tools: the tools that change files, and what a tool returns.
pub mod Write
use agent_v.Prelude.{String, Bool}
use agent_v.Json.{Fields}

-- The parts of `ToolResult` (tools/base.py) that the services read: a failure has a code and says
-- whether it is recoverable; a success has metadata.
pub data ToolResult : Type 0 where
  failure : String → Bool → ToolResult
  success : Fields → ToolResult
