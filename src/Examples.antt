-- ===== src/Examples.antt =====
-- Concrete inputs for the theorems that have conditions: the conditions hold there.
mod Link
mod Devices
mod Clocks
mod Boards
