-- ===== src/Agent.antt =====
-- The agent runtime: src/agent.
pub mod Mailbox
pub mod Eventlog
pub mod History
pub mod HistBptree
pub mod HmsCache
