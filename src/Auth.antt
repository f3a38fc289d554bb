-- ===== src/Auth.antt =====
-- packages/backend/src/auth and packages/backend/src/common/guards: who may do what.
pub mod Crypto
pub mod Service
pub mod TwoFactor
pub mod Login
pub mod Sessions
pub mod SecondFactor
pub mod Guards
pub mod ApiKeys
pub mod Controller
pub mod AuditLog
