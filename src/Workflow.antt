-- ===== src/Workflow.antt =====
-- device_workflow: the state machine of a task (`State`), the per-task lock (`Lock`), the orchestrator
-- that keeps the machine's state in the ledger (`Orchestrator`).
pub mod State
pub mod Lock
pub mod RedisLock
pub mod Orchestrator
