-- ===== src/Tests.antt =====
-- Runs at concrete inputs.
mod Lists
mod Buffers
mod Channels
mod Tasks
mod Sockets
mod Servers
mod Running
mod Paths
mod Names
mod Streams
mod Scheduling
mod Contexts
