-- ===== src/Tester.antt =====
-- src/mqtt/mqttest.cc, the command line client that subscribes and dumps messages.
pub mod Wire
pub mod Dump
pub mod Callbacks
pub mod Loop
pub mod Main
pub mod Usage
