-- ===== src/Examples.antt =====
-- The theorems at concrete inputs: a cluster in memory, and small runs of each part.
mod Wiring
mod Sorting
mod Runs
mod Sessions
mod Json
mod Decoded
mod Loops
mod Fixtures
mod Store
mod Parts
mod Monitors
mod Server
mod Listing
