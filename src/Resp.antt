-- ===== src/Resp.antt =====
-- resp/resp.go: the wire protocol.
pub mod Types
pub mod Reader
pub mod Marshal
pub mod Unmarshal
pub mod Lines
pub mod RoundTrip
pub mod Faults
