-- ===== src/Backend.antt =====
-- The modules of backend/: the parameter store, the command protocol, its server and client, and
-- the Wi-Fi driver.
pub mod Parameters
pub mod Wifidrv
pub mod Frame
pub mod ParseCmd
pub mod CmdServer
pub mod CmdClient
pub mod CmdClientReq
