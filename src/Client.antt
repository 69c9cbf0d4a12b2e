-- ===== src/Client.antt =====
-- The client framework of base/cf.cpp: what it reads from its arguments, how it moves bytes over the
-- socket, and the messages that it exchanges with the server.
pub mod Args
pub mod Arguments
pub mod Transfer
pub mod Messages
pub mod Events
pub mod Machine
pub mod Negotiation
pub mod Session
pub mod Threads
pub mod Life
pub mod Screen
mod Slow
mod Tests
