-- ===== src/Faucet.antt =====
-- The faucet service (faucet/src): rate limiting, amounts and the drip decision.
pub mod RateLimiter
pub mod Drip
pub mod Amount
pub mod Server
