-- ===== src/Model.antt =====
-- PoC-webui-v2/internal/model: the configuration objects and the configuration tree.
pub mod Types
pub mod Metadata
pub mod Objects
pub mod Durations
pub mod Ports
pub mod System
pub mod Tree
pub mod Edits
pub mod Walk
pub mod Lookups
pub mod Uuids
