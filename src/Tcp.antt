-- ===== src/Tcp.antt =====
-- ditto-python-client/src/ditto_client/tcp_client.py: the client over one TCP connection.
pub mod Monad
pub mod Connection
pub mod Client
pub mod Counting
pub mod Bounds
pub mod Frames
pub mod Exchange
pub mod Loss
pub mod Strict
pub mod Total
pub mod Keeps
pub mod Refines
pub mod Answers
