-- ===== src/Tests.antt =====
-- Concrete networks, stores and rule tables, and the theorems applied to them.
mod Memory
mod Plans
mod Rules
mod Entries
mod Kernel
mod Hosts
mod Clients
mod Configs
mod Disks
mod Agents
mod Locals
mod Texts
mod Codecs
mod Goroutines
mod Watches
mod Runs
