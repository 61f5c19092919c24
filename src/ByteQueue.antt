-- ===== src/ByteQueue.antt =====
-- lib/byte_queue.c and lib/byte_queue.h: the circular buffer of bytes that holds waiting senders,
-- waiting tasks and console input.
pub mod Defs
pub mod Fifo
pub mod Refine
mod Tests
