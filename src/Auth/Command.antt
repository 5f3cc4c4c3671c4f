-- ===== src/Auth/Command.antt =====
-- internal/modules/auth/application/command: the use cases, each as an action on the `World`.
pub mod Denylist
pub mod Issuer
pub mod Refresh
pub mod SignOut
pub mod Authenticate
pub mod Verify
pub mod RateLimit
pub mod Challenge
pub mod Login
pub mod MagicLink
pub mod Passwords
pub mod Totp
pub mod Delivery
