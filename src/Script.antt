-- ===== src/Script.antt =====
-- Bitcoin's scripts: include/electrumz/bitcoin/script.h and src/blockchain/bitcoin/script.cpp.
pub mod Ops
pub mod Solver
pub mod Destination
