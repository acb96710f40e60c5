-- ===== src/Tests.antt =====
-- Runs of the definitions on concrete inputs, and the theorems at such inputs.
mod Messages
mod Tables
mod Guards
mod Bans
mod UserLists
mod PluginLists
mod Words
mod Locks
mod Addresses
mod Clocks
mod Logins
