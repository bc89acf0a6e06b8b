-- ===== src/World.antt =====
-- What the program runs against and does not implement: PostgreSQL behind pgx and scany, the clock,
-- the JSON codec of the store, the random source, SHA-256, and the reading of a JWT's expiry.
pub mod Memory
pub mod Samples
use evesso.Prelude.{
  ℕ, ◌≤◌, ◌<◌, ◌≡◌, String, Bool, Option, some, List, [], ◌∷◌, if◌then◌else◌, length, All,
}
use evesso.Exec.{Error, unavailable, no_rows, many_rows, Result, ok, err}
use evesso.Sql.{Uuid, Time, Tables, Kind, Row, Statement, run}

-- A state is everything outside the program's own memory. `perform` is one round trip: a connection
-- is acquired, the statement runs (in a transaction of its own), and the rows come back. It is served
-- or it fails, and a statement that fails changes no table.
pub record World : Type 1 where
  pub State : Type 0
  pub tables : State → Tables
  pub clock : State → Time
  pub served : State → Bool
  pub fresh : State → Uuid × Uuid
  pub perform : (k : Kind) → Statement k → State → Result (List (Row k)) × State
  pub perform-reply :
      (k : Kind) (st : Statement k) (s : State)
      → (perform k st s).0 ≡ (if served s then (run (fresh s) st (tables s)).0 else err unavailable)
  pub perform-tables :
      (k : Kind) (st : Statement k) (s : State)
      → tables (perform k st s).1 ≡ (if served s then (run (fresh s) st (tables s)).1 else tables s)
  pub perform-clock : (k : Kind) (st : Statement k) (s : State) → clock s ≤ clock (perform k st s).1
  -- pgxscan.Get scans exactly one row, and is an error for any other number.
  pub scan_one : (k : Kind) → List (Row k) → Result (Row k)
  pub scan_one-nil : (k : Kind) → scan_one k [] ≡ err no_rows
  pub scan_one-one : (k : Kind) (r : Row k) → scan_one k (r ∷ []) ≡ ok r
  pub scan_one-many :
      (k : Kind) (q r : Row k) (rs : List (Row k)) → scan_one k (q ∷ r ∷ rs) ≡ err many_rows
  -- Values of Go's `interface{}`, of which nil is left out, and goccy/go-json.
  pub Value : Type 0
  pub marshal : Option Value → Result String
  pub unmarshal : String → Result (Option Value)
  -- rand.Read into 32 bytes: the bytes, or none when it fails or is short; it writes no table.
  pub random : State → Option (List ℕ)
  pub random-bytes :
      (s : State) (bytes : List ℕ)
      → random s ≡ some bytes
      → (length bytes ≡ 32) × All (λ b. b < 256) bytes
  pub sha256 : String → List ℕ
  -- jwt.ParseInsecure: the `exp` claim, if the text parses and has one.
  pub parse_insecure : String → Result (Option Time)
