-- ===== src/Tests.antt =====
-- Concrete inputs, runs of the model on them, and the theorems at them.
mod Samples
mod Lifecycle
mod Approvals
mod Policies
mod Versions
mod Completions
mod Permissions
mod Messages
mod Assessments
mod Revocations
mod Writes
mod Promises
