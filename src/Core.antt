-- ===== src/Core.antt =====
-- internal/core: the tails of output that alerts carry.
pub mod Tail
