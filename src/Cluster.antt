-- ===== src/Cluster.antt =====
-- internal/cluster: the decoders of the tables that the snapshot attaches to code.
pub mod CodeSourceMap
pub mod DispatchTable
pub mod PcDescriptors
pub mod Ranges
pub mod StackMaps
pub mod TryRegions
