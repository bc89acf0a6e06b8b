-- ===== src/Store/Query/Outcome.antt =====
-- What the forms of Query answer and leave behind, in terms of the statement's meaning.
use evesso.Prelude.{◌≤◌, ◌≡◌, true, false, List, [], ◌∷◌, if◌then◌else◌, arith, inl, inr}
use evesso.Exec.{unavailable, Result-cases, ok, err, map_ok, ◌>>=◌}
use evesso.Sql.{Tables, Kind, Row, Statement, is_select, run}
use evesso.World.{World}
use evesso.Store.Query.{query_nil, query_struct}

module _ (w : World) where
  open w use {
    State, clock, tables, served, fresh, perform, perform-reply, perform-tables, perform-clock,
    scan_one, scan_one-nil, scan_one-one, scan_one-many,
  }

  -- The tables after a statement that reached the server or did not.
  abbrev pub after : (k : Kind) → Statement k → State → Tables
  after k st s = if served s then (run (fresh s) st (tables s)).1 else tables s

  scan_one-inv :
      (k : Kind) (rows : List (Row k)) (r : Row k) → scan_one k rows ≡ ok r → rows ≡ r ∷ []
  scan_one-inv k [] r e = cc (scan_one-nil k)
  scan_one-inv k (q ∷ []) r e = cc (scan_one-one k q)
  scan_one-inv k (p ∷ q ∷ rows) r e = cc (scan_one-many k p q rows)

  pub query_struct-tables :
      (k : Kind) (st : Statement k) (s : State) → tables (query_struct w st s).1 ≡ after k st s
  unfolding query_struct
  query_struct-tables k st s = ground (arith, perform-tables k st s)

  pub query_struct-ok :
      (k : Kind) (st : Statement k) (s : State) (r : Row k)
      → (query_struct w st s).0 ≡ ok r
      → (served s ≡ true) × ((run (fresh s) st (tables s)).0 ≡ ok (r ∷ []))
  unfolding query_struct
  query_struct-ok k st s r e = elim (Result-cases (perform k st s).0) [
    | inl (rows, found) ↦
        let one = scan_one-inv k rows r (rw (found, ◌>>=◌) at e) in
        ground (arith, perform-reply k st s, found, one)
    | inr (f, failed) ↦ cc (rw (failed, ◌>>=◌) at e)
  ]

  pub query_struct-served :
      (k : Kind) (st : Statement k) (s : State) (rows : List (Row k))
      → served s ≡ true
      → (run (fresh s) st (tables s)).0 ≡ ok rows
      → (query_struct w st s).0 ≡ scan_one k rows
  unfolding query_struct
  query_struct-served k st s rows up e = ground (arith, perform-reply k st s)

  pub query_struct-unserved :
      (k : Kind) (st : Statement k) (s : State)
      → served s ≡ false
      → (query_struct w st s).0 ≡ err unavailable
  unfolding query_struct
  query_struct-unserved k st s down = ground (arith, perform-reply k st s)

  pub query_struct-clock :
      (k : Kind) (st : Statement k) (s : State) → clock s ≤ clock (query_struct w st s).1
  unfolding query_struct
  query_struct-clock k st s = ground (arith, perform-clock k st s)

  pub query_nil-tables :
      (k : Kind) (st : Statement k) (s : State)
      → is_select st ≡ false
      → tables (query_nil w st s).1 ≡ after k st s
  unfolding query_nil
  query_nil-tables k st s e = rw e (perform-tables k st s)

  pub query_nil-reply :
      (k : Kind) (st : Statement k) (s : State)
      → is_select st ≡ false
      → (query_nil w st s).0
        ≡ (if served s then map_ok (λ _. tt) (run (fresh s) st (tables s)).0 else err unavailable)
  unfolding query_nil
  query_nil-reply k st s e = rw e (ground (arith, perform-reply k st s))
