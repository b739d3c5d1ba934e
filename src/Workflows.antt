-- ===== src/Workflows.antt =====
-- src/sovereign_ai/kernel/workflows.py and workflow_service.py: versioned step graphs and their runs.
pub mod Dag
pub mod Definitions
pub mod Instances
pub mod Service
