-- ===== src/Rbac.antt =====
-- internal/modules/rbac: roles, permissions, who holds them, and the cache in front of them.
pub mod Tables
pub mod World
pub mod Domain
pub mod Repository
pub mod Cache
pub mod Query
pub mod Command
pub mod Readers
pub mod Guards
mod Tests
