-- ===== src/Server.antt =====
-- server/: the file system behind the server and its control connection.
pub mod Paths
pub mod FileSystem
pub mod Replies
pub mod Metadata
pub mod Commands
pub mod Session
