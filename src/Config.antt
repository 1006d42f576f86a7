-- ===== src/Config.antt =====
-- internal/config: the sections of the agent's configuration, and how they are read, merged and
-- checked. Package cli is the record Config/Command.
pub mod Merge
pub mod Command
pub mod Client
pub mod Http
pub mod Log
pub mod Nomad
pub mod Cells
pub mod Server
pub mod Store
pub mod Agent
pub mod Files
pub mod Load
pub mod Sections
pub mod Checks
