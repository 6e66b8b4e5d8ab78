-- ===== src/Tests.antt =====
-- Concrete libraries and connections, and the theorems applied to them.
pub mod Libraries
pub mod Connection
pub mod Commands
pub mod Bitcoin
pub mod Database
pub mod Journal
pub mod Loaders
pub mod Config
pub mod Rpc
pub mod Script
pub mod Worker
pub mod Answers
pub mod Subscription
