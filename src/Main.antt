-- ===== src/Main.antt =====
-- main.c: the daemon from its command line to its end.
pub mod Options
pub mod Name
pub mod Daemon
pub mod Run
pub mod Quiet
pub mod Boot
pub mod Closes
pub mod Released
mod Witnesses
