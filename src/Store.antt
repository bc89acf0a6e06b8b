-- ===== src/Store.antt =====
-- pkg/datastore/evessopg: PGStore, Profile, Character and PKCE. A Go object is the record of its
-- fields (without the store pointer); a method that changes its object returns it anew, also beside
-- an error. Mutexes are left out: each method is one step.
pub mod Base
pub mod Query
pub mod Profiles
pub mod Pkces
pub mod Characters
mod Tests
mod GrantTests
mod PkceTests
