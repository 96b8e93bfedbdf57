-- ===== src/Lib.antt =====
-- The Zigbee add-on of homey-shs-enhanced: Homey's self-hosted server with a Zigbee coordinator
-- attached to it (an Ember/EZSP stick). All of the code modelled here is under
-- enhancements/0001-zigbee-ember, and the files named without a folder are in its src.
--
-- The program's parts, from the radio up:
--
-- * homey-ember.cjs extends herdsman's Ember adapter: it joins fragmented messages
--   (Driver/Fragments.antt: `onIncomingMessage` is `on_incoming_message`, the map of fragments is
--   its argument and a field of its result) and keeps the coordinator's multicast table
--   (Driver/Multicast.antt: `addMulticastGroup` is `add_multicast_group`, what it runs in the queue
--   is `add_entry`; `removeMulticastGroup` likewise). Driver/Lock.antt is `withMulticastLock`, the
--   chain of promises under which these two run, with a lock of tickets as its specification in
--   Driver/Lock/Tickets.antt; Driver/Multicast/Sequences.antt specifies the groups as a set.
--   Driver/Pending.antt is the map of sends that wait for the coordinator's report,
--   Driver/Dispatch.antt hands frames to the coordinator (`sendRawZclFrame`, `sendHomeyZdo`),
--   Driver/Statuses.antt has the errors that carry a status, Driver/Notices.antt what the adapter
--   emits and passes on to herdsman, and Driver/Closing.antt its `permitJoin`.
-- * HomeyEmberController.mts is Homey's controller on top of that adapter. Its ZDO requests are in
--   Controller/Zdo.antt (`_bind` is `bind`, `_getBindingTable` is `get_binding_table`, and so on)
--   with their data in Controller/ZdoData.antt,
--   `_permitJoin` in Controller/Zdo/Joining.antt, the handlers of the adapter's events in
--   Controller/Events.antt and their attaching in Controller/Attached.antt, and
--   `translateSendError`, which turns what the adapter throws into what Homey's base class acts on,
--   in Controller/SendErrors.antt. A request is a function of what the
--   adapter answers and throws, and its result is a `Result`. Controller/Radio.antt is the life of
--   the adapters (`start`, `_reset`, `_destroy`), as functions between two awaits and, in
--   Controller/Radio/Steps.antt, the relation of the orders in which these can come.
--   Controller/Backups.antt is `writeBackup`, Controller/Options.antt `createAdapter`, and
--   Controller/Settings.antt `publishState`, `_sendZCLFrame` and the requests for groups.
-- * RadioStore.mts keeps the network's credentials and the coordinator's backup on disk
--   (RadioStore/Network.antt: creation and validation; RadioStore/Store.antt: the methods of the
--   class). Disk.antt models the directory: every system call may be refused, by a schedule that
--   is a parameter, and the disk after each call is kept, so that a theorem about all of them is
--   one about a crash at any point.
-- * ManagerZigbeeEmber.mts supervises the controller. Manager/StartLoop.antt is `runStartLoop`, a
--   turn at a time (`attempt`) and as a loop on fuel (`run_start_loop`), where the fuel is the
--   number of turns looked at: the loop goes on for as long as no coordinator starts.
--   Manager/Lifecycle.antt is recovery, reset and shutdown, as steps between two awaits over the
--   flags, the abort signals and the loops that run. Manager/Teardown.antt is what `teardownZigbee`,
--   `onUninit` and `resetNetwork` call in their order, Manager/Reports.antt what the manager reports,
--   Manager/Bindings.antt is `createBindings`, and Manager/Backend.antt the choice between this
--   manager and Homey's own (overlay/ManagerZigbee.mts).
-- * address.mts (Address.antt) converts addresses and keys, backoff.mts (Backoff.antt) gives the
--   delays between two attempts to start, and device-errors.mts (DeviceErrors.antt) describes why
--   the coordinator does not start. Promises.antt has the races of promises that the controller
--   and the manager make.
-- * apply.mjs patches Homey's sources when the image is built. Patch.antt has its replacement of an
--   exact block of text, and Patch/Script.antt the script as a function of the tree of files, with
--   the check of herdsman's build in scripts/check-herdsman.mjs. Logger.antt is the logger that
--   herdsman.mts gives herdsman.
-- * Prelude.antt has texts, lists, options, thrown values and results; Json.antt the values that
--   `JSON.parse` returns.
--
-- Conventions. A text is the list of its UTF-16 code units. Numbers are natural numbers; where the
-- source masks or shifts, the model divides. A thrown value is a `Thrown`, with a constructor for
-- each class of error that some code tells apart. A promise that is waited for is a step of a
-- function over events, in the order in which they happen. All functions but the start loop are by
-- structural recursion and need no fuel.
--
-- Not under this repository and so parameters: herdsman's numbers and names, the EZSP commands,
-- Homey's address book, the random source, doubles, the clock and the operating system. What the
-- code relies on is stated as fields of `Ncp`, `Doubles` and `IsDraw`, or as a hypothesis.
--
-- Not modelled: the loading of modules; methods that only call on (`onZigbeeReady`, `setDebug`,
-- `handleNodeRepair`); the log lines of the manager; the parsing of config.mts, which the script
-- writes as text; and the charts, container files and patches of the repository.
pub mod Prelude
pub mod Address
pub mod Backoff
pub mod DeviceErrors
pub mod Json
pub mod Disk
pub mod RadioStore
pub mod Driver
pub mod Controller
pub mod Promises
pub mod Manager
pub mod Patch
pub mod Logger
pub mod Tests
