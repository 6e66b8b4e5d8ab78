-- ===== src/Txo/Preload.antt =====
-- `PreLoadBlocks`: the block files are read block by block, and each block is stored in one
-- transaction, by one thread in Files, by several in Loaders, and in two passes in Passes. Of the
-- statistics nothing is modelled.
pub mod Blocks
pub mod Files
pub mod Addresses
pub mod Loaders
pub mod Passes
pub mod Answers
pub mod Reader
