-- ===== src/Session.antt =====
-- session.go: the session payload, its encryption, and the cookies that carry it.
pub mod Chunks
pub mod Clear
pub mod Crypto
pub mod Payload
pub mod RoundTrip
pub mod Store
