-- ===== src/Auth.antt =====
-- internal/modules/auth: accounts, sessions and their credentials.
pub mod Domain
pub mod World
pub mod Repository
pub mod Command
pub mod Session
pub mod Login
