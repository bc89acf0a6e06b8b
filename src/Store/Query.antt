-- ===== src/Store/Query.antt =====
-- Query of PGStore.go, one definition for each kind of output. Connection and Transaction are the
-- pool's part of World.perform.
pub mod Outcome
pub mod Consistency
use evesso.Prelude.{if◌then◌else◌, List}
use evesso.Exec.{Done, nil_output, not_pointer, err, map_ok, Exec, raise, lift, ◌>>=◌}
use evesso.Sql.{Kind, Row, Statement, is_select}
use evesso.World.{World}

module _ (w : World) where
  open w use {State, perform, scan_one}

  -- Query with a nil output: a SELECT is refused, any other statement runs and its rows are dropped.
  unfoldable pub query_nil : {k : Kind} → Statement k → Exec State Done
  query_nil {k} st s =
      if is_select st
      then (err nil_output, s)
      else (map_ok (λ rows. tt) (perform k st s).0, (perform k st s).1)

  -- Query with a pointer to a slice: pgxscan.Select
  unfoldable pub query_slice : {k : Kind} → Statement k → Exec State (List (Row k))
  query_slice {k} st = perform k st

  -- Query with a pointer to a struct: pgxscan.Get
  unfoldable pub query_struct : {k : Kind} → Statement k → Exec State (Row k)
  query_struct {k} st = do rows ← perform k st; lift (scan_one k rows)

  -- Query with an output that is no pointer
  unfoldable pub query_other : {k : Kind} → Statement k → Exec State Done
  query_other st = raise not_pointer
