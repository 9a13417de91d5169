-- ===== src/Vita.antt =====
-- vita/vita_tx.c and vita/vita_tx.h: VITA-49 packets and the sessions that they are sent for.
pub mod Packet
pub mod Sessions
pub mod Send
pub mod Counts
pub mod First
pub mod Active
mod Witnesses
