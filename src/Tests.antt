-- ===== src/Tests.antt =====
-- Concrete data for the examples, and the examples outside the commit graph.
pub mod Data
mod Storage
mod Live
mod Replaying
mod Web
mod Starting
mod Streams
mod Client
mod Codec
mod Running
mod Publishing
mod Comparing
