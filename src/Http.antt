-- ===== src/Http.antt =====
-- engine/http.c, engine/http.h: the web server of the engine. A browser asks for the files of the
-- web client, or opens a WebSocket, whose frames are relayed to the engine's own command port.
pub mod Frame
pub mod Relay
pub mod Request
