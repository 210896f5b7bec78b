-- ===== src/Profile.antt =====
-- The provider profile of crates/linguamesh-domain/src/lib.rs: its texts, references and setters.
pub mod Credential
pub mod Checks
pub mod Outside
pub mod Identity
pub mod Record
pub mod Detection
pub mod Safety
pub mod Building
pub mod References
pub mod Secrets
pub mod Endpoints
mod Tests
