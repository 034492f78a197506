-- ===== src/Wire.antt =====
-- Error details, end-of-stream messages and error bodies as JSON.
pub mod Structs
pub mod Details
pub mod Marshal
pub mod Unmarshal
pub mod Codec
pub mod RoundTrip
pub mod Messages
pub mod Arrival
