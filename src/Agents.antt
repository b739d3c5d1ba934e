-- ===== src/Agents.antt =====
-- The agent loops (src/sovereign_ai/agents): what they keep of a run's history.
pub mod Context
