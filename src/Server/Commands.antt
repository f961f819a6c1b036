-- ===== src/Server/Commands.antt =====
-- server/tcp_server.py, `handle_client_session`: one function for each branch of the loop.
pub mod Login
pub mod Folders
pub mod Status
pub mod Transfers
pub mod Allowed
pub mod Keeping
pub mod Changing
pub mod Starting
pub mod Newlines
