-- ===== src/Server.antt =====
-- The server, Server/*.py.
pub mod General
pub mod Text
pub mod Runtime
pub mod Tables
pub mod Checksum
pub mod Connection
pub mod Registry
pub mod Disk
pub mod Header
pub mod Keys
pub mod Requests
pub mod Files
pub mod Verdicts
pub mod Loop
