-- ===== src/Websocket.antt =====
-- websocket.hpp and websocket.cpp: the sessions and handles of web socket clients, the file of their
-- passwords, and the server's callbacks and calls.
pub mod Auth
pub mod Handles
pub mod Server
pub mod Steps
pub mod Limit
pub mod Progress
pub mod Answers
pub mod Replies
pub mod Delivery
pub mod Access
pub mod Sessions
pub mod Logout
pub mod Passwd
