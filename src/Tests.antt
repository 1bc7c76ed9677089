-- ===== src/Tests.antt =====
-- Runs of the definitions, and the theorems at concrete inputs.
mod Toy
mod Slots
mod Messages
mod Scheduling
mod Rounds
mod Resources
mod CommandLine
mod Output
mod Interleavings
mod Wire
mod Encoded
mod Buffers
mod Frames
mod Streams
mod Writing
mod Connections
mod Urls
