-- ===== src/Page.antt =====
-- Pages of the storage engine, which the sources only call.
pub mod Api
pub mod Bytes
pub mod Store
pub mod Links
