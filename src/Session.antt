-- ===== src/Session.antt =====
-- Client/client.cpp: the conversation with the server, from `main` down. A loop or a retry that the
-- source writes as a recursion takes fuel here, and `out_of_fuel` is no outcome of the program.
pub mod Packets
pub mod Finish
pub mod Keys
pub mod Connect
pub mod Sending
pub mod Total
pub mod Ending
pub mod Round
pub mod Stored
pub mod FirstRun
pub mod Registered
pub mod KeyExchange
pub mod Success
pub mod Registration
pub mod Retries
mod Runs
