-- ===== src/Tx.antt =====
-- frontend-explorer/lib/tx: the write path of the explorer, from a typed intent to the wallet.
pub mod Intents
pub mod Lifecycle
pub mod Digest
pub mod Executor
pub mod Plan
pub mod Transaction
pub mod Humanize
pub mod Live
pub mod Context
