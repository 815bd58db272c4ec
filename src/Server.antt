-- ===== src/Server.antt =====
-- boards/hazk03-stm32f105rb/src/stm32_ipc.c: the server of the protocol on the STM32. Each handler is
-- a function from the state of the server and a frame to the state that it leaves.
pub mod Board
pub mod Link
pub mod Settings
pub mod Panels
pub mod Assets
pub mod Storage
pub mod UsbPort
pub mod Dispatch
pub mod Run
