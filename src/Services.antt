-- ===== src/Services.antt =====
-- plugins/services: which services a package operation concerns, in which order rc.d scripts run,
-- and what happens to each service that is to be stopped or restarted.
mod Examples
mod Runs
pub mod Db
pub mod Hooks
pub mod Monitor
pub mod RcOrder
pub mod Selection
