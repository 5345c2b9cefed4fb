-- ===== src/Hardening.antt =====
-- The guards around writes to providers: the switches of firmos-backend/core/feature_flags.py (Flags),
-- the retries (Retry), the rate limiter (RateLimit) and the idempotency keys (Idempotency) of firmos-backend/core/hardening.py.
pub mod Flags
pub mod Retry
pub mod RateLimit
pub mod Idempotency
