-- ===== src/Protocol/Evaluator.antt =====
-- packages/protocol/src/evaluator.ts: the evaluator of a policy, from its inputs to its result.
pub mod Step
pub mod Inputs
pub mod History
pub mod Rules
pub mod Evaluate
pub mod Run
pub mod Approval
pub mod Evidence
pub mod Allow
pub mod Chain
pub mod Denial
pub mod Reasons
pub mod Priority
pub mod Reference
