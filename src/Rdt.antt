-- ===== src/Rdt.antt =====
-- rdt/: the stop-and-wait transfer.
pub mod Config
pub mod Context
pub mod FaultInjector
pub mod Port
pub mod Sender
pub mod Reception
pub mod Receiver
pub mod Link
