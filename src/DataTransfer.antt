-- ===== src/DataTransfer.antt =====
-- common/data_transfer.py, on the session of common/session.py: the server's side, and the client's.
pub mod Session
pub mod Target
pub mod Upload
pub mod Download
pub mod Client
