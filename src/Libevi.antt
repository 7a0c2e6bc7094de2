-- ===== src/Libevi.antt =====
-- package/libevi: the LCD captions and the bit-banged display driver below them.
pub mod Hal
pub mod Charge
pub mod Screen
pub mod Caption
pub mod Router
pub mod Display
pub mod InitLcm
pub mod Sysfs
pub mod OnPins
pub mod Begin
pub mod Threads
pub mod Version
mod Tests
