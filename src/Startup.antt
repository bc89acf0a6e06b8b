-- ===== src/Startup.antt =====
-- How the program starts: config.go, AutoConfig and oAuth2 of autoconfig.go, Setup and NewPGStore of
-- PGStore.go, and cmd/tokengen/main.go.
pub mod Config
pub mod Discovery
pub mod Extension
pub mod Migrations
pub mod Migrated
pub mod Tokengen
pub mod DefaultProfile
pub mod Started
pub mod Resources
mod Tests
mod StoreTests
