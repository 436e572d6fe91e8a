-- ===== src/Client.antt =====
-- client.py: the hardened HTTP transport, and the AuthZEN client on top of it.
pub mod Url
pub mod Json
pub mod Transport
pub mod Authzen
pub mod Strict
pub mod Rounds
pub mod Trace
pub mod Retries
pub mod Recovery
pub mod Answers
pub mod Lifecycle
