-- ===== src/Client.antt =====
-- src/mqtt/client_shared.cc, the options and the connection of the command line client.
pub mod Config
pub mod Proxy
pub mod Options
pub mod Library
pub mod Load
pub mod Owned
pub mod Ident
pub mod Setup
