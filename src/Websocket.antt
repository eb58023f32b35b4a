-- ===== src/Websocket.antt =====
-- server/server.h and server/server.cpp, class websocket_session: its write queue, the topics that a
-- message asks for, and the handler of a message that was read.
pub mod WriteQueue
pub mod Topics
pub mod Reading
mod Examples
