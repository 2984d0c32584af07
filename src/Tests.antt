-- ===== src/Tests.antt =====
-- The theorems, each at a concrete input where its hypotheses hold.
mod Toy
mod Requests
mod Responses
mod Streams
mod Guards
mod Walk
mod Coprocesses
mod LockRuns
mod Starts
mod Commands
