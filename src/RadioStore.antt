-- ===== src/RadioStore.antt =====
-- enhancements/0001-zigbee-ember/src/RadioStore.mts: the Zigbee network's credentials and the
-- coordinator's backup, on disk. `Network` has the credentials, `Store` the operations on the disk.
pub mod Network
pub mod Store
pub mod Created
pub mod Paths
pub mod Atomic
pub mod Reset
pub mod Load
pub mod Sure
pub mod Persist
