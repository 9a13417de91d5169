-- ===== src/Mdns.antt =====
-- common/mdns_builtin.c, common/mdns_avahi.c and common/mdns.c: what publishes the daemon on the LAN.
pub mod Packet
pub mod Query
pub mod Room
pub mod Fits
pub mod Reads
pub mod Names
pub mod RoundTrip
pub mod Answers
pub mod Start
pub mod Avahi
pub mod Front
pub mod Balanced
pub mod Freed
mod Witnesses
