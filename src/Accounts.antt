-- ===== src/Accounts.antt =====
-- The accounts of the HTTP server: sign-up, login and the reset of an admin's password.
pub mod Users
pub mod Password
pub mod Login
pub mod SignedUp
pub mod Tokens
pub mod Reset
