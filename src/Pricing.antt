-- ===== src/Pricing.antt =====
-- backend/app/services/pricing: suggested prices for every territory.
pub mod Decimal
pub mod Territories
pub mod Cache
pub mod Apply
pub mod Versions
pub mod Rounding
pub mod Charming
pub mod Safety
pub mod Tiers
pub mod Engine
pub mod Finalize
pub mod Preview
mod Tests
