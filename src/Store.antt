-- ===== src/Store.antt =====
-- The explorer's small stores over localStorage: lib/tx/optimistic.ts, lib/watchlist.ts and
-- lib/notifications.ts under frontend-explorer.
pub mod Local
pub mod Optimistic
pub mod Toaster
pub mod Watchlist
pub mod Notifications
