-- ===== src/Connection.antt =====
-- One client connection: the class `JsonRPCServer` of include/electrumz/JsonRPCServer.h and
-- src/net/JsonRPCServer.cxx. The children hold its parts.
pub mod Memory
pub mod State
pub mod Buffer
pub mod Tls
pub mod Write
pub mod Read
pub mod Dispatch
pub mod Sound
pub mod Requests
