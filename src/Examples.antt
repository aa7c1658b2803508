-- ===== src/Examples.antt =====
-- The development's theorems at concrete inputs: resources of a small project, a storage in memory, and
-- a runtime that answers with what it is asked for.
mod Data
mod Nodes
mod Walks
mod Touching
mod Shipped
mod Run
mod Graphs
mod Files
mod Remote
mod Directories
mod Attributes
mod Texts
mod Downstream
