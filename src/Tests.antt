-- ===== src/Tests.antt =====
-- Concrete inputs, and the theorems of the development applied at them.
mod Data
mod Events
mod Queue
mod Permissions
mod Worker
mod HumanInput
mod Calls
mod Policy
mod Changes
mod FileChanges
mod Batch
mod Approval
