-- ===== src/Provider.antt =====
-- providers/duckbug/: the first-party provider. Payloads are prepared, buffered and queued, and sent.
pub mod Payload
pub mod Config
pub mod State
pub mod Transport
