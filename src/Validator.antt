-- ===== src/Validator.antt =====
-- PoC-webui-v2/internal/validator: the cross-object rules of the domain model.
pub mod Errors
pub mod Checks
pub mod Intervals
pub mod Names
pub mod Globals
pub mod Network
pub mod Entries
pub mod Groups
pub mod Dhcp
pub mod Sets
pub mod RuleSets
pub mod Run
pub mod Load
