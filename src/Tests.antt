-- ===== src/Tests.antt =====
-- Concrete inputs: runs of the code, and the theorems at them.
mod Sample
mod Runs
mod Engine
mod Claims
mod Leader
mod Votes
mod Streams
mod Records
mod Peers
mod Nodes
mod Starts
mod Cluster
mod Lines
mod Early
mod Running
