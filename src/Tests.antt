-- ===== src/Tests.antt =====
-- Runs on concrete inputs, and the theorems at inputs that meet their conditions.
mod Wire
mod Requests
mod Heuristic
mod Bus
mod Accounts
mod Pull
mod Paths
mod Store
mod Sync
mod Watch
mod Client
mod Config
mod Db
mod Mcp
mod Media
mod Export
