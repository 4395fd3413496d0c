-- ===== src/Tests.antt =====
-- Runs of the model on concrete inputs, and the theorems at inputs that meet their hypotheses.
mod Strings
mod Paths
mod Patterns
mod Keys
mod Devices
mod Configs
mod Chains
mod Menus
mod Disks
mod Boots
mod Screens
mod Typing
mod Entries
mod Sessions
mod Archives
