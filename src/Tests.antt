-- ===== src/Tests.antt =====
-- Runs of the theorems and of the models on concrete inputs.
mod Context
mod Data
mod Indexer
mod Search
mod Session
mod Tx
mod Wire
mod Market
mod Browser
mod Screens
mod Keeper
mod Store
