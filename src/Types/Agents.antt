-- ===== src/Types/Agents.antt =====
-- crates/mamba-types/src/agent.rs: the roles of agents, with the model and the agent that each stands for.
use open_mamba.Base.{String, Option, List}

pub data AgentRole : Type 0 where
  code_deliverer deployer auditor planner protocol_intel market_intel algo_trader : AgentRole

unfoldable pub default_model : AgentRole → String
default_model code_deliverer = "nemotron/taifoon"
default_model deployer = "nemotron/taifoon"
default_model auditor = "claude-sonnet-4-6"
default_model planner = "claude-opus-4-7"
default_model protocol_intel = "nemotron/taifoon"
default_model market_intel = "nemotron/polymarket"
default_model algo_trader = "nemotron/algotrada"

unfoldable pub openfang_agent : AgentRole → String
openfang_agent code_deliverer = "coder"
openfang_agent deployer = "devops-lead"
openfang_agent auditor = "code-reviewer"
openfang_agent planner = "planner"
openfang_agent protocol_intel = "taifoon-intel"
openfang_agent market_intel = "market-intel"
openfang_agent algo_trader = "algo-trader"

pub record AgentDef : Type 0 where
  pub slug : String
  pub role : AgentRole
  pub description : String
  pub model : String
  pub base_url : Option String
  pub skills : List String
  pub delivery_channel : Option String
  pub delivery_to : Option String
