-- ===== src/Client.antt =====
-- client/daemon: the program on the device that opens and closes the valves. One child for each
-- folder of its source.
pub mod SocketData
pub mod State
pub mod Log
pub mod ValveManager
pub mod ScheduleManager
pub mod Controller
pub mod DeviceClient
pub mod TestServer
pub mod Thread
