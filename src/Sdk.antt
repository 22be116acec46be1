-- ===== src/Sdk.antt =====
-- The TypeScript SDK (sdk/src): messages, their transports, submission and retrying.
pub mod Bytes
pub mod Reader
pub mod Envelope
pub mod Inbox
pub mod Nonces
pub mod Outbox
pub mod Subscription
pub mod Sample
pub mod Retry
