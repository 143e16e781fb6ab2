-- ===== src/Access.antt =====
-- app/access.py: two-factor sign-in, API tokens and per-server grants.
pub mod Totp
pub mod Second
pub mod Login
pub mod Setup
pub mod Spent
pub mod Recovery
pub mod Lockout
pub mod Digits
pub mod Challenge
pub mod Tokens
pub mod Grants
pub mod TokenLaws
pub mod GrantLaws
