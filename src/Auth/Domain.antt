-- ===== src/Auth/Domain.antt =====
-- internal/modules/auth/domain: the entities. Times are numbers of nanoseconds, and a zone shows
-- only when a time is printed, so `UTC()` is the identity here. A new identifier is an argument.
pub mod User
pub mod RefreshToken
pub mod VerificationCode
pub mod Contact
