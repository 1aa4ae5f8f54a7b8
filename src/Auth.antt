-- ===== src/Auth.antt =====
-- internal/auth, internal/handler/auth.go and internal/service/totp.go: who may log in, how often,
-- and what a token lets through.
pub mod RateLimit
pub mod Totp
pub mod Rbac
pub mod Token
pub mod Altcha
pub mod Login
