-- ===== src/Fastdb.antt =====
-- modules/fastdb: the query cache, the tables of a query, and the write subscriptions.
pub mod Tables
pub mod Cache
pub mod Subscribe
mod Tests
