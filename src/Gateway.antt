-- ===== src/Gateway.antt =====
-- Who may call the HTTP interface (src/gateway/app.py, src/gateway/auth.py).
pub mod Outcome
pub mod Auth
pub mod Access
pub mod Credentials
