-- ===== src/Auth/Session.antt =====
-- What the use cases guarantee of the sessions of a user.
pub mod Growth
pub mod Issued
pub mod Rotation
pub mod SingleUse
pub mod Reuse
pub mod Ending
pub mod Access
pub mod SignedOut
pub mod Owned
pub mod Tests
