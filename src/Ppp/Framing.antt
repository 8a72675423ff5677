-- ===== src/Ppp/Framing.antt =====
-- Frames on the serial line of modules/pico_dev_ppp.c: what is sent is what is received.
pub mod Escape
pub mod Buffer
pub mod Check
pub mod Delivery
pub mod Frames
pub mod Datagrams
