-- ===== src/Ppp/Options.antt =====
-- The loops of modules/pico_dev_ppp.c over the options of a packet: where they end, and where not.
pub mod Ends
pub mod Loops
pub mod Sizes
