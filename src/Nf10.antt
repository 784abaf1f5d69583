-- ===== src/Nf10.antt =====
-- The nf10 network card driver: one module for each of its files and handlers.
pub mod Card
pub mod Xmit
pub mod RxDsc
pub mod Work
pub mod Ioctl
pub mod Iface
pub mod Probe
mod Tests
