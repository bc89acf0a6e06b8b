-- ===== src/Store/Query/Consistency.antt =====
-- The constraints of the tables across a round trip.
use evesso.Prelude.{◌≡◌, false, inl, inr, Bool-cases}
use evesso.Sql.{Kind, Statement, is_select}
use evesso.Sql.Schema.{IsConsistent}
use evesso.Sql.Schema.Keeps.{run-IsConsistent}
use evesso.World.{World}
use evesso.Store.Query.{query_nil, query_struct}
use evesso.Store.Query.Outcome.{query_nil-tables, query_struct-tables, after}

module _ (w : World) where
  open w use {State, tables, served, fresh}

  after-IsConsistent :
      (k : Kind) (st : Statement k) (s : State)
      → IsConsistent (tables s)
      → IsConsistent (after w k st s)
  after-IsConsistent k st s h = elim (Bool-cases (served s)) [
    | inl up ↦ rw up (run-IsConsistent (fresh s) st (tables s) h)
    | inr down ↦ rw down h
  ]

  pub query_struct-IsConsistent :
      (k : Kind) (st : Statement k) (s : State)
      → IsConsistent (tables s)
      → IsConsistent (tables (query_struct w st s).1)
  query_struct-IsConsistent k st s h =
      rw (query_struct-tables w k st s) (after-IsConsistent k st s h)

  pub query_nil-IsConsistent :
      (k : Kind) (st : Statement k) (s : State)
      → is_select st ≡ false
      → IsConsistent (tables s)
      → IsConsistent (tables (query_nil w st s).1)
  query_nil-IsConsistent k st s e h = rw (query_nil-tables w k st s e) (after-IsConsistent k st s h)
