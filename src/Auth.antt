-- ===== src/Auth.antt =====
-- Accounts: logging in, its lockouts, tokens, passwords and codes (app/auth/, app/models/user.py).
pub mod Account
pub mod Login
pub mod Password
pub mod Session
pub mod Admin
mod Tests
