-- ===== src/Buffer.antt =====
-- LibEvent/Source/buffer.c and evbuffer-internal.h: a byte queue kept in a list of chunks.
pub mod Chain
pub mod State
pub mod Callbacks
pub mod Outcome
pub mod Add
pub mod Prepend
pub mod Drain
mod Tests
