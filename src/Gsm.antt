-- ===== src/Gsm.antt =====
-- GSMSHIELD: the library for the GSM module, as it stands in the repository.
pub mod State
pub mod Receive
pub mod TextFinder
pub mod Command
pub mod Setup
pub mod Http
pub mod Gprs
pub mod Modem
pub mod Phone
pub mod Network
pub mod Action
