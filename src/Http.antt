-- ===== src/Http.antt =====
-- The HTTP client library, z88dk/libhttp: addresses, requests, headers and data.
pub mod Request
pub mod Data
pub mod Headers
pub mod Answer
mod Tests
pub mod Uri
