-- ===== src/Auth.antt =====
-- Authentication (auth/): registration, the limit on logins, the deny list of tokens, and the guard.
pub mod Registration
pub mod Login
pub mod Connection
pub mod Limiter
pub mod DenyList
pub mod Guard
pub mod Tokens
pub mod Session
pub mod CurrentUser
