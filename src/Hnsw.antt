-- ===== src/Hnsw.antt =====
-- The HNSW index: `src/index/hnsw`.
pub mod Graph
pub mod Queue
pub mod Layer
pub mod Mutable
pub mod Operations
