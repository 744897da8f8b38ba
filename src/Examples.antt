-- ===== src/Examples.antt =====
-- The theorems at concrete inputs, and the data for them.
mod Data
mod Library
mod Delivery
mod Clients
mod Backoff
mod Reception
mod Registry
mod Random
mod Proton
mod Plugin
mod Send
mod Startup
mod Threads
mod Recv
