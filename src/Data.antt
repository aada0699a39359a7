-- ===== src/Data.antt =====
-- The data layer of the explorer, frontend-explorer/lib/data: what the indexer and the wallet's node
-- answer, as the domain types.
pub mod Client
pub mod Events
pub mod Wire
pub mod Records
pub mod Assets
pub mod Updates
pub mod Validators
pub mod Feeds
pub mod Governance
pub mod Disputes
pub mod Position
pub mod Live
