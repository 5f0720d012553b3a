-- ===== src/Tests.antt =====
-- Runs of the modelled operations at concrete inputs.
mod Queues
mod Bitmaps
mod Nodes
mod Graphs
mod Functions
mod Domains
mod Vectors
mod Visits
mod Offsets
mod Starts
