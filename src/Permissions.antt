-- ===== src/Permissions.antt =====
-- backend/app/permissions: which tool calls need a person's consent, and what an answer does.
pub mod Context
pub mod Service
pub mod Listing
pub mod Policy
