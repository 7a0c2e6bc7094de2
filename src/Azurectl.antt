-- ===== src/Azurectl.antt =====
-- package/evi-azurectl.
mod Tests
pub mod Modbus
pub mod Uci
pub mod Files
pub mod Serial
pub mod Dongle
pub mod Control
