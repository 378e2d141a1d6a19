-- ===== src/Tests.antt =====
-- Runs of the code on concrete inputs, and each theorem with hypotheses at one of them.
pub mod Online
pub mod White
pub mod Reload
pub mod Serve
pub mod Fresh
pub mod Kafka
pub mod Daily
pub mod Receive
pub mod File
pub mod Program
pub mod Shared
pub mod Wire
pub mod Remote
mod Ips
