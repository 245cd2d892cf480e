-- ===== src/Wire.antt =====
-- The texts that processes exchange: the reply of a worker to the client, tcp_worker.cpp and
-- tcp_client.cpp, and the messages of subscriptions, lua_script.cpp.
pub mod Request
pub mod Worker
pub mod Server
pub mod Client
pub mod RoundTrip
pub mod Arguments
pub mod Subscription
pub mod Subscriptions
