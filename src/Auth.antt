-- ===== src/Auth.antt =====
-- internal/auth: who a bearer token belongs to, and how often a key may ask.
pub mod Hashed
pub mod Stored
pub mod RateLimiter
