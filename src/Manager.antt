-- ===== src/Manager.antt =====
-- enhancements/0001-zigbee-ember/src/ManagerZigbeeEmber.mts: the manager that starts the
-- coordinator, keeps it running and takes it down.
pub mod State
pub mod StartLoop
pub mod Lifecycle
pub mod Bindings
pub mod Teardown
pub mod Reports
pub mod Backend
