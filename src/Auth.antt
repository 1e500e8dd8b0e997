-- ===== src/Auth.antt =====
-- backend/src/auth/service.py, by concern: logins, tokens, users, and the deletion of a business.
pub mod Password
pub mod Login
pub mod Tokens
pub mod Users
pub mod Deletion
