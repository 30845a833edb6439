-- ===== src/Dialogs.antt =====
-- webui/src/app/ui: the dialogs that change a cluster.
mod Callbacks
pub mod Migration
pub mod Failover
