-- ===== src/Agent.antt =====
-- crates/scrooge-agent-core and crates/scrooge-agent-bin: what the agent keeps and sends.
pub mod Queue
pub mod Uploader
pub mod Session
pub mod Sensors
pub mod Identity
pub mod Enrollment
pub mod Collector
