-- ===== src/Monitor.antt =====
-- src/monitor: the health check, the log and the watchdog.
pub mod Health
pub mod Log
pub mod Watchdog
