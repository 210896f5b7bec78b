-- ===== src/Routing.antt =====
-- crates/linguamesh-domain/src/routing.rs: the choice of a provider and model for a request.
pub mod Types
pub mod Validation
pub mod Filter
pub mod Ranking
pub mod Selection
pub mod Identifiers
pub mod Acceptance
pub mod Order
pub mod Verdicts
pub mod Choice
pub mod Preference
pub mod Guarantees
pub mod Answers
pub mod Keys
pub mod Determinism
mod Tests
