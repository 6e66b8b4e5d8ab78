-- ===== src/Txo.antt =====
-- The database of transaction outputs: src/blockchain/TXODB.cxx, include/electrumz/TXODB.h and
-- include/electrumz/TXO.h.
pub mod Record
pub mod Database
pub mod Preload
