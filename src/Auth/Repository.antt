-- ===== src/Auth/Repository.antt =====
-- internal/modules/auth/infrastructure/repository.go: each SQL statement as a function of the
-- table's rows, and each repository method as a call of the database.
pub mod Tokens
pub mod Users
pub mod Families
pub mod Codes
pub mod Recovery
