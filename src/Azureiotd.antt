-- ===== src/Azureiotd.antt =====
-- package/azureiotd/src.
pub mod SafeStr
pub mod Dps
pub mod Url
pub mod Base64
pub mod Sas
pub mod Enhanced
pub mod Mqtt
mod Tests
pub mod Conn
pub mod Setup
pub mod Main
