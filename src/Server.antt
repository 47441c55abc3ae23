-- ===== src/Server.antt =====
-- server/src/receiver: the program that answers the devices. One child for each folder of its
-- source, and `Handler` for main.cpp.
pub mod SocketData
pub mod Db
pub mod Log
pub mod Main
pub mod Daemon
pub mod Print
pub mod Logged
