-- ===== src/Tests.antt =====
-- The theorems at concrete data: a garden with two valves, and a server that stores bytes in
-- either order.
pub mod Data
mod Database
mod Wire
mod Server
mod Client
mod System
mod Thread
mod Text
mod Http
mod Web
mod Pages
mod Logged
mod Gsm
mod Modem
