-- ===== src/Zint.antt =====
-- The plugin of plugins/zfs_integration: the retention of its snapshots.
pub mod Units
mod Examples
pub mod Purge
pub mod Purged
pub mod Raw
pub mod Pools
pub mod Retention
pub mod Filter
pub mod Period
