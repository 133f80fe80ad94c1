-- ===== src/Contracts/Request/Repair.antt =====
-- The repair request of a valid request is valid, as long as its system prompt stays within the
-- length of a text.
use Prim.Native.Char.{Char}
use Prim.Native.String.{◌++◌ as append}
use governed_analytics_agent.Common.{String}
