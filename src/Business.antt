-- ===== src/Business.antt =====
-- The application layer under server/: the packet protocol, the calendar and the handlers.
pub mod Packet
pub mod Bits
pub mod Calendar
pub mod Monad
pub mod Text
pub mod Interface
pub mod Server
pub mod Transaction
pub mod Owed
pub mod Answers
pub mod Statements
pub mod Handlers
pub mod Schedule
pub mod Route
pub mod Start
