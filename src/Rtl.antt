-- ===== src/Rtl.antt =====
-- rtl/rtl_bridge.c and rtl/rtl_bridge.h: the bridge to the dongle.
pub mod Bridge
pub mod Limits
pub mod Lifecycle
pub mod Counted
pub mod Control
pub mod Initial
pub mod Adc
mod Witnesses
