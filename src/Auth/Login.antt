-- ===== src/Auth/Login.antt =====
-- What the ways to sign in guarantee: a password, a second factor, a magic link, a code.
pub mod Factor
pub mod Challenged
pub mod Password
pub mod Link
pub mod Guesses
pub mod Limit
pub mod Tests
pub mod Passwords
pub mod Reset
pub mod Redeem
pub mod Disable
pub mod Blind
pub mod Delivered
pub mod ResetCode
