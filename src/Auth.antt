-- ===== src/Auth.antt =====
-- src/mqtt/auth_plugin.cc, the authentication plugin of the broker.
pub mod Uid
pub mod Services
pub mod Kafka
pub mod Session
pub mod Status
pub mod Connect
pub mod Lifecycle
