-- ===== src/Server.antt =====
-- The server side (server.go): the writer that it pushes into, the calls, and Dispatch.
pub mod Writer
pub mod Calls
pub mod Errors
pub mod Stream
pub mod Replay
pub mod Unary
pub mod Dispatch
pub mod Adapter
pub mod StreamWriter
