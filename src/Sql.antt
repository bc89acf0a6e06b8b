-- ===== src/Sql.antt =====
-- The tables of pkg/datastore/evessopg/migrations/1_init.up.sql, the Go structs that their rows are
-- scanned into, and the SQL statements that the store builds with squirrel, as data with their
-- meaning. PostgreSQL itself is a parameter of the model (World.antt).
mod Rows
mod Language
mod Meaning
pub mod Schema
mod Tests
pub use Rows.*
pub use Language.*
pub use Meaning.{
  Tables, contains, same_strings, same_identity, same_profile, same_pkce, same_character,
  is_profile, profile_matches, pkce_matches, character_matches,
}
unfoldable pub use Meaning.{run}
