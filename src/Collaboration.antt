-- ===== src/Collaboration.antt =====
-- Rooms of humans and agents (src/sovereign_ai/collaboration): the store with its chains of events, and
-- the service in front of it.
pub mod Store
pub mod Identities
pub mod Rooms
pub mod Chain
pub mod Append
pub mod History
pub mod Audit
pub mod Tamper
pub mod Text
mod Tests
pub mod Service
pub mod Messages
pub mod Bootstrap
pub mod Calls
pub mod Inbox
