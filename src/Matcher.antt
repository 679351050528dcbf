-- ===== src/Matcher.antt =====
-- client/scripts/matcher-service.ts
pub mod Order
pub mod Pending
pub mod Sort
pub mod Book
pub mod Hash
pub mod Config
pub mod Loading
pub mod Fills
pub mod Settlement
pub mod Tick
pub mod Tests
