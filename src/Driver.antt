-- ===== src/Driver.antt =====
-- enhancements/0001-zigbee-ember/src/homey-ember.cjs: the subclass of herdsman's Ember adapter.
pub mod Fragments
pub mod Multicast
pub mod Pending
pub mod Closing
pub mod Statuses
pub mod Dispatch
pub mod Lock
pub mod Notices
