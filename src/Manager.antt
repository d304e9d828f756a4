-- ===== src/Manager.antt =====
-- The manager: its database, the REST handlers and the gRPC service of the agents.
pub mod World
pub mod Api
pub mod Policies
pub mod Push
pub mod Broadcast
pub mod Registry
pub mod Enroll
pub mod Details
pub mod Events
pub mod Auth
pub mod Agents
pub mod Stream
pub mod Install
pub mod State
pub mod Startup
