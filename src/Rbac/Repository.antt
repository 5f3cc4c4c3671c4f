-- ===== src/Rbac/Repository.antt =====
-- The repositories of infrastructure/repository.go, on the tables of a `World`.
pub mod Roles
pub mod Permissions
pub mod Access
