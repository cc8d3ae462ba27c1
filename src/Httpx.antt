-- ===== src/Httpx.antt =====
-- The adapter of HTTP clients.
pub mod Deadline
pub mod RoundTrip
