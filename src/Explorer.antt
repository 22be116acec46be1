-- ===== src/Explorer.antt =====
-- The explorer (explorer/src): the texts on its pages and the references in its links.
pub mod Format
pub mod Links
pub mod Routes
pub mod Accounts
