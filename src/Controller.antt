-- ===== src/Controller.antt =====
-- enhancements/0001-zigbee-ember/src/HomeyEmberController.mts: Homey's controller contract on top of
-- herdsman's Ember adapter.
pub mod SendErrors
pub mod ZdoData
pub mod Zdo
pub mod Events
pub mod Radio
pub mod Backups
pub mod Settings
pub mod Options
pub mod Attached
