-- ===== src/Tests.antt =====
-- Tests on concrete inputs, and the theorems at inputs that meet their hypotheses.
mod Records
mod Pages
mod Values
mod Schemas
mod Conversions
mod Paths
mod Directories
mod Logs
mod Graphs
mod Adjacency
mod Occupancy
mod Searches
mod Sound
mod Stored
mod Files
mod FreePages
