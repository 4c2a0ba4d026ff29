-- ===== src/Ring.antt =====
-- Circular arrays, as the index array and the data bytes of a channel are used (src/ach.c).
pub mod Position
pub mod Window
pub mod Copy
