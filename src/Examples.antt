-- ===== src/Examples.antt =====
-- The theorems at concrete inputs.
mod Data
mod Compile
mod Signing
mod Codec
mod Format
mod Documents
mod Client
mod Answers
mod Nodes
mod Runs
mod Exchanges
