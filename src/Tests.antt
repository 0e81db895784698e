-- ===== src/Tests.antt =====
-- Runs of the definitions at concrete inputs, and the theorems at inputs that meet their hypotheses.
mod Buffers
mod Packets
mod Connections
mod Requests
mod Accounts
mod Schedules
mod Pools
mod Calendars
mod Routes
mod Slots
mod Loops
mod Templates
mod Timers
mod Pollers
mod Servers
mod Sockets
mod Starts
