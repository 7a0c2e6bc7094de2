-- ===== src/Lcdsvc.antt =====
-- package/evi-lcdsvc: the daemon that serialises all use of the display over a Unix socket.
pub mod Service
pub mod Gpio
pub mod Hw
pub mod Daemon
mod Tests
