-- ===== src/Ring.antt =====
-- What the two ring buffers (src/mrmw_queue.c, src/srsw_queue.c) have in common: the slots that hold
-- the queued pointers, oldest first, and the bounded queue that both stand for.
pub mod Api
pub mod Slots
pub mod Fifo
