-- ===== src/Display.antt =====
-- boards/hazk03-stm32f105rb/src/stm32_display.c, by its parts.
pub mod Anim
pub mod Layout
pub mod Settings
pub mod Screen
