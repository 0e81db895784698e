-- ===== src/Business/Handlers.antt =====
-- The handlers of server/business/BusinessServer.cpp, by what they are about.
pub mod Activity
pub mod Assign
pub mod Member
pub mod Rows
pub mod Query
pub mod Slots
pub mod Batch
pub mod Settle
pub mod Approve
pub mod Apply
pub mod Account
pub mod Term
pub mod Spread
pub mod Template
pub mod Edit
pub mod Add
pub mod Once
