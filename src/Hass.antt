-- ===== src/Hass.antt =====
-- wapps/tg-hass and wapps/lib/hassparse.c: the texts and the packets of the bridge to Home Assistant.
pub mod Text
pub mod Mqtt
pub mod Session
