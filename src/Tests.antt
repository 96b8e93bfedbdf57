-- ===== src/Tests.antt =====
-- The library's theorems at concrete inputs, by the part of the program that they are about.
mod Codecs
mod Lifecycles
mod Dispatches
mod Patches
mod Errors
mod Events
mod Radio
mod Requests
mod Sends
mod Store
mod Supervision
