-- ===== src/Pages.antt =====
-- webui/src/app/namespaces: the pages of the web interface.
pub mod Effects
pub mod Samples
pub mod Cluster
pub mod Namespace
pub mod Namespaces
pub mod Node
pub mod Shard
