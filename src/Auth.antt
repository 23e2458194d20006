-- ===== src/Auth.antt =====
-- Signing in (app/web/auth/routes.py, app/core/totp.py, app/core/security.py): the limits on failed
-- attempts, the password, the second factor and the change of passwords.
pub mod Throttle
pub mod Totp
pub mod Account
pub mod Session
pub mod Login
pub mod TwoFactor
pub mod Password
pub mod Serve
pub mod Tests
