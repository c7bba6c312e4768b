-- ===== src/Matching.antt =====
-- services/trading-svc/internal/matching: the order queue, the orderbook, the matching engine and
-- the registry of engines.
pub mod Queue
pub mod Search
pub mod Book
pub mod Engine
pub mod Registry
mod Tests
