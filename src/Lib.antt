-- ===== src/Lib.antt =====
-- evesso: EVE Online SSO authentication and token storage for Go. The development models the
-- PostgreSQL store with its advisory locks, the reading of verified access tokens, the two
-- callback handlers, the local HTTP server of the second one, the token source, the start-up,
-- the SSH dialer, and the two commands.
--
-- How the parts work together: an authorization URL carries the state and the challenge of a
-- PKCE row that Profile.CreatePKCE has stored. The SSO sends the browser back to a callback
-- (EVESSO.ServeHTTP, or the handler that EVESSO.LocalhostAuth serves) with that state and a
-- code; the handler finds the row and its profile, deletes the row, exchanges the code,
-- verifies the access token, reads the claims and stores a character. A token source later
-- finds that character, refreshes its token, and writes changed tokens back.
--
-- Files and the code that they model, by paths from the root of the repository:
--
-- - Match.antt: DataStore.go, MatchScopes with elementsMatchByLoop (match_scopes, mark,
--   mark_all) and elementsMatchByMap (tally, drain). The visited flags are a list beside the
--   slice, the map an association list.
-- - Sql.antt: pkg/datastore/evessopg/migrations/1_init.up.sql, the structs of Profile.go,
--   PKCE.go and Character.go, and the SQL statements that the store builds. Rows has the
--   records, Language the statements, Meaning what a statement answers and leaves (run), Schema
--   the constraints as an invariant.
-- - World.antt: what the store runs against: PostgreSQL through pgx and scany, the clock, JSON,
--   the random source. It is a record that the definitions take as a parameter;
--   World/Memory.antt is an instance in memory, World/Samples.antt are rows for the tests.
-- - Exec.antt: Go's (T, error) as a Result, and methods as functions from a state to a Result
--   and a state. What was written before an error stays written.
-- - Store.antt: pkg/datastore/evessopg. Store/Query.antt is PGStore.Query, Store/Profiles.antt
--   the operations on profiles and FindCharacter, Store/Pkces.antt PKCE.go with FindPKCE and
--   CleanPKCE (Store/Pkces/Registry.antt and Trace.antt have the abstract registry of pending
--   authorizations), Store/Characters.antt Character.go with CreateCharacter. Methods keep
--   their Go names in snake_case; Profile.Delete and Character.Delete are both delete.
-- - Pool.antt: PGStore.go, Connection, Transaction (connection, transaction) and the statements
--   that Query runs by them, over pgxpool and pgx as a record Pgx.
-- - Base64.antt: base64.RawURLEncoding, by which MakePKCE writes its verifier and challenge
--   (raw_url_encode).
-- - Claims.antt: token.go, newCharacterClaims (new_character_claims, with fmt.Sscanf in
--   Claims/Subject.antt and sort.Strings in Claims/Sorting.antt) and the issuer check
--   (check_issuer).
-- - Sso.antt: config.go, what jwx, oauth2 and uuid do for the program, as a record Sso, and
--   validateAccessToken. Sso/Memory.antt is an instance.
-- - Callback.antt: autoconfig.go, verify, ServeHTTP (serve_http) and the handler of
--   LocalhostAuth (handle_localhost). attempt is the return on an error. Callback/Requests.antt
--   is ServeHTTP one call at a time (Phase, advance), for requests that net/http serves at the
--   same time.
-- - DataStore.antt: DataStore.go, the interfaces DataStore, Profile, PKCE and Character as
--   records of methods. DataStore/Evessopg.antt is pkg/datastore/evessopg as an instance, with
--   the accessors of its structs; DataStore/Handler.antt is ServeHTTP and Save over any
--   DataStore (serve, store_token).
-- - TokenSource.antt: token.go, the type ssoTokenSource (Source) and its methods; Token is
--   get_token, Valid is valid. A method holds the lock for its whole run, so it is one step. A
--   nil dereference is the error fault.
-- - Localhost.antt: autoconfig.go, LocalhostAuth, and internal/utils/runner.go (os_exec).
--   Localhost/Address.antt is the choice of address, TLS and certificates;
--   Localhost/Server.antt the goroutine, the handlers, the two channels and the select as a
--   step relation (Server, Step), with the handler of Callback.antt as one step.
-- - Locks.antt: pkg/datastore/evessopg/PGStore.go, GLock and GUnlock; Locks/Checksum.antt is
--   crc32.ChecksumIEEE.
-- - Proxy.antt: internal/utils/sshproxy.go. Proxy/Dial.antt is dialContext as a step relation
--   of its goroutine, its select and the context; SSHDialer, defaultKnownHosts and
--   signerFromPem are functions over a record Ssh.
-- - Startup.antt: Startup/Config.antt is config.go (load, callback_url, and filepath.Ext as
--   extension), Startup/Discovery.antt is AutoConfig and oAuth2 of autoconfig.go,
--   Startup/Migrations.antt is Setup and NewPGStore of PGStore.go, Startup/Tokengen.antt is
--   cmd/tokengen/main.go from FindProfile on.
-- - Generator.antt: internal/gen/scopes/main.go (generate); Generator/Output.antt is
--   scopes_gen.go.
--
-- Numbers: a uuid is a number that is only compared; times are in microseconds, the resolution
-- of timestamptz; int32 is kept by the range that Sscanf checks. No definition runs on fuel. A
-- connection of a pool is a number in a count, so that a leak can be seen.
--
-- The laws that World and Sso assume: a statement is served and has the meaning of run, or it
-- is not and changes nothing; scanning one row fails unless there is exactly one; the clock
-- does not go back in a statement; jwx accepts only tokens that are signed by a key of the set,
-- are within their times with the skew, and pass the checks that it is given; no library call
-- changes a table; the random source gives 32 bytes or fails. Acquire and BeginTx take one
-- connection or fail, Release, Commit and Rollback give it back; a transaction at repeatable
-- read sees the committed tables as they were when it began; its writes are committed by
-- Commit, and an error of Commit leaves open whether they were; BeginTxFunc rolls back where
-- its function fails. A session counts its advisory locks as PostgreSQL documents it; Up of
-- golang-migrate leaves the latest version where it returns nil or ErrNoChange; opening a file
-- and a successful HTTP request each leave one thing to close.
--
-- Not modelled: an acknowledgement of a statement that is lost, outside of Pool.antt; other
-- sessions of the database between the calls of one transaction; net/http, autocert, jwk.Cache,
-- pgxpool, golang-migrate and golang.org/x/crypto/ssh beyond what the code relies on, which the
-- records state; the logger of the migrations; DialContext, DialContextDatabase and Dial of the
-- SSH dialer, which only pass their arguments on; errors.go, whose values no operation of the
-- store returns.
pub mod Prelude
pub mod Base64
pub mod Pool
pub mod DataStore
pub mod Match
pub mod Exec
pub mod Sql
pub mod World
pub mod Store
pub mod Claims
pub mod Sso
pub mod Callback
pub mod TokenSource
pub mod Proxy
pub mod Localhost
pub mod Locks
pub mod Generator
pub mod Startup
