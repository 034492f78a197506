-- ===== src/Client.antt =====
-- The client's side of net/http (bridge_nethttp.go): wrapped transports, unary calls, and the
-- stream of a server-stream call.
pub mod Interceptors
pub mod Connect
pub mod Protocols
pub mod Open
pub mod Stream
pub mod Unary
