-- ===== src/Drv.antt =====
-- The modules of drv/: the keep-alive supervision and the device drivers.
pub mod Keepalive
pub mod RingBuff
pub mod FastAdd
pub mod But
pub mod WaterFlowSensor
pub mod PowerOn
pub mod Sleep
pub mod Buzzer
pub mod Battery
pub mod Pcf8574
pub mod Ultrasonar
pub mod OtaDrv
pub mod PwmDrv
pub mod Led
pub mod DevConfig
pub mod ErrorCode
