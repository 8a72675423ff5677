-- ===== src/Ppp/Session.antt =====
-- The life of a connection in modules/pico_dev_ppp.c: the clock, lost sessions, long frames.
pub mod Timeouts
pub mod Stale
pub mod Silence
pub mod GivingUp
pub mod Receiving
pub mod Polling
pub mod Histories
