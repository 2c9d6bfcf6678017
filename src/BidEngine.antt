-- ===== src/BidEngine.antt =====
-- bidengine/: the engine that bids on open orders.
pub mod Order
pub mod Fetcher
pub mod Service
pub mod Auditors
pub mod Fulfilment
pub mod Pricing
