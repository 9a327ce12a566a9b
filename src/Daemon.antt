-- ===== src/Daemon.antt =====
-- cmd/nebulagc/daemon: the parts of the node's daemon.
pub mod BundleManager
pub mod Poller
pub mod Config
pub mod ClusterManager
pub mod Supervisor
pub mod HealthChecker
