-- ===== src/Pool.antt =====
-- pkg/datastore/evessopg/PGStore.go: Connection and Transaction, and a statement of Query run by them.
pub mod Atomic
mod Tests
use evesso.Prelude.{ℕ, ◌+◌, ◌-◌, ◌≡◌, ◌⊎◌, List}
use evesso.Exec.{Error, Done, ok, err, Exec}
use evesso.Sql.{Uuid, Tables, Kind, Row, Statement, run}

-- pgx.TxOptions, as far as Transaction sets it
pub data IsoLevel : Type 0 where
  serializable repeatable_read read_committed read_uncommitted : IsoLevel

pub data AccessMode : Type 0 where
  read_write read_only : AccessMode

pub record TxOptions : Type 0 where
  pub iso_level : IsoLevel
  pub access_mode : AccessMode

-- pgxpool and pgx. `tables` are the committed ones, `view` what a transaction sees, and `held` counts the
-- connections that are acquired and not released. No other session acts between the calls of one.
pub record Pgx : Type 1 where
  pub State : Type 0
  pub tables : State → Tables
  pub held : State → ℕ
  -- pgxpool.Pool.Acquire, and Conn.Release
  pub Conn : Type 0
  pub acquire : Exec State Conn
  pub acquire-held :
      (s : State) → held (acquire s).1 ≡ elim (acquire s).0 [ ok c ↦ held s + 1 | err e ↦ held s ]
  pub release : Conn → State → State
  pub release-held : (c : Conn) (s : State) → held (release c s) ≡ held s - 1
  pub release-tables : (c : Conn) (s : State) → tables (release c s) ≡ tables s
  -- A statement on a connection, which is neither acquired nor released by it
  pub query : Conn → (k : Kind) → Statement k → Exec State (List (Row k))
  pub query-held :
      (c : Conn) (k : Kind) (st : Statement k) (s : State) → held (query c k st s).1 ≡ held s
  -- Pool.BeginTx, which acquires a connection and, at repeatable read, takes a snapshot; Tx.Exec, which
  -- changes what the transaction sees, if it succeeds as the statement means; and Commit and Rollback,
  -- which both release the connection. An error of Commit leaves open whether it took place.
  pub Tx : Type 0
  pub view : Tx → State → Tables
  pub begin_tx : TxOptions → Exec State Tx
  pub begin_tx-held :
      (o : TxOptions) (s : State)
      → held (begin_tx o s).1 ≡ elim (begin_tx o s).0 [ ok t ↦ held s + 1 | err e ↦ held s ]
  pub begin_tx-tables : (o : TxOptions) (s : State) → tables (begin_tx o s).1 ≡ tables s
  pub begin_tx-view :
      (o : TxOptions) (s : State) (t : Tx)
      → o.iso_level ≡ IsoLevel.repeatable_read
      → (begin_tx o s).0 ≡ ok t
      → view t (begin_tx o s).1 ≡ tables s
  pub exec : Tx → (k : Kind) → Statement k → Exec State Done
  pub exec-ok :
      (t : Tx) (k : Kind) (st : Statement k) (s : State)
      → (exec t k st s).0 ≡ ok tt
      → (fresh : Uuid × Uuid) × (rows : List (Row k)) × (run fresh st (view t s)
          ≡ (ok rows, view t (exec t k st s).1))
  pub exec-tables :
      (t : Tx) (k : Kind) (st : Statement k) (s : State) → tables (exec t k st s).1 ≡ tables s
  pub exec-held :
      (t : Tx) (k : Kind) (st : Statement k) (s : State) → held (exec t k st s).1 ≡ held s
  pub commit : Tx → Exec State Done
  pub commit-ok : (t : Tx) (s : State) → (commit t s).0 ≡ ok tt → tables (commit t s).1 ≡ view t s
  pub commit-err :
      (t : Tx) (s : State) (e : Error)
      → (commit t s).0 ≡ err e
      → (tables (commit t s).1 ≡ tables s) ⊎ (tables (commit t s).1 ≡ view t s)
  pub commit-held : (t : Tx) (s : State) → held (commit t s).1 ≡ held s - 1
  pub rollback : Tx → State → State
  pub rollback-tables : (t : Tx) (s : State) → tables (rollback t s) ≡ tables s
  pub rollback-held : (t : Tx) (s : State) → held (rollback t s) ≡ held s - 1
  -- pgx.BeginTxFunc calls BeginTx and then the function, and then Commit, or Rollback where the function
  -- returned an error.
  pub begin_tx_func : TxOptions → (Tx → Exec State Done) → Exec State Done
  pub begin_tx_func-unbegun :
      (o : TxOptions) (f : Tx → Exec State Done) (s : State) (e : Error)
      → (begin_tx o s).0 ≡ err e
      → begin_tx_func o f s ≡ (err e, (begin_tx o s).1)
  pub begin_tx_func-failed :
      (o : TxOptions) (f : Tx → Exec State Done) (s : State) (t : Tx) (e : Error)
      → (begin_tx o s).0 ≡ ok t
      → (f t (begin_tx o s).1).0 ≡ err e
      → begin_tx_func o f s ≡ (err e, rollback t (f t (begin_tx o s).1).1)
  pub begin_tx_func-done :
      (o : TxOptions) (f : Tx → Exec State Done) (s : State) (t : Tx)
      → (begin_tx o s).0 ≡ ok t
      → (f t (begin_tx o s).1).0 ≡ ok tt
      → begin_tx_func o f s ≡ commit t (f t (begin_tx o s).1).1

abbrev pub tx_options : TxOptions
tx_options = record { iso_level = IsoLevel.repeatable_read; access_mode = AccessMode.read_write }

module _ (p : Pgx) where
  open p use {State, Conn, acquire, release, query, Tx, exec, begin_tx_func}

  -- PGStore.Connection, with `defer tx.Release()`
  unfoldable pub connection : {A : Type 0} → (Conn → Exec State A) → Exec State A
  connection f s =
      let (r, s') = acquire s in
      elim r [ err e ↦ (err e, s') | ok c ↦ let (out, s'') = f c s' in (out, release c s'') ]

  -- PGStore.Transaction
  unfoldable pub transaction : (Tx → Exec State Done) → Exec State Done
  transaction f = begin_tx_func tx_options (λ tx. f tx)

  -- What Query does with a nil output, and with an output to scan rows into
  abbrev pub query_exec : {k : Kind} → Statement k → Exec State Done
  query_exec {k} st = transaction (λ tx. exec tx k st)

  abbrev pub query_rows : {k : Kind} → Statement k → Exec State (List (Row k))
  query_rows {k} st = connection (λ c. query c k st)
