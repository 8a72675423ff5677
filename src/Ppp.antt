-- ===== src/Ppp.antt =====
-- The PPP device driver, modules/pico_dev_ppp.c (paths are from picotcp/): a child for each part of
-- the driver and for each group of proofs.
pub mod Types
pub mod Wire
pub mod Lcp
pub mod Modem
pub mod Auth
pub mod Ipcp
pub mod Handlers
pub mod ModemTable
pub mod LcpTable
pub mod AuthTable
pub mod IpcpTable
pub mod Engine
pub mod Control
pub mod LcpInput
pub mod IpcpInput
pub mod Input
pub mod Poll
pub mod Device
pub mod Ops
pub mod Framing
pub mod Options
pub mod Session
mod Tests
