-- ===== src/Utils.antt =====
-- src/utils: the queue of delayed calls, and helpers for text.
pub mod Timer
pub mod Text
