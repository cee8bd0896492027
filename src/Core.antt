-- ===== src/Core.antt =====
-- core/: the runtime. Event types, levels and results; cloning and normalizing values; the scope; the
-- transactions; and the client itself.
pub mod Types
pub mod Level
pub mod Util
pub mod Transaction
pub mod Scope
pub mod Ids
pub mod Stack
pub mod Duck
