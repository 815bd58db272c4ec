-- ===== src/Broker.antt =====
-- wapps/tg-broker/broker.c: the wapp that holds the link and serves the pipes of the other wapps.
pub mod Engine
pub mod State
pub mod Requests
pub mod Loop
pub mod Boot
