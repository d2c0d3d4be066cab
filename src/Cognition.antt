-- ===== src/Cognition.antt =====
-- The cognitive loop: the tools that an agent may call (backend/app/services/cognitive_tooling) and
-- the bounded loop of planning, simulation, execution and criticism that calls them
-- (backend/app/services/cognitive_loop). The language-model agents, the handlers of the tools, the
-- schemas of Pydantic and the JSON encoder are parameters.
pub mod Registry
pub mod Guard
pub mod Invoker
pub mod Executor
pub mod Patch
pub mod Orchestrator
pub mod Authorization
pub mod Logging
pub mod Redaction
pub mod Steps
pub mod SafeRuns
pub mod LoopRule
pub mod Termination
pub mod Ending
pub mod Patches
mod Tests
