-- ===== src/Pool/Tests.antt =====
-- Statements over a pool in memory, whose server is up or down.
use evesso.Prelude.{
  Bool-cases, ap, inl, inr, ◌⊎◌, ℕ, ◌+◌, ◌-◌, ◌≡◌, refl, arith, Bool, true, false, if◌then◌else◌,
  List, [], ◌∷◌,
}
use evesso.Exec.{Error, unavailable, Done, Result, ok, err, map_ok, Exec, Result-cases}
use evesso.Sql.{
  Uuid, Tables, Kind, Row, Statement, run, ProfileCond, ProfileSet, update_profiles,
  select_profiles,
}
use evesso.World.Samples.{rows, home, second}
use evesso.Pool.{Pgx, connection, transaction, query_exec, query_rows}
use evesso.Pool.Atomic.{Ended, connection_held, query_exec_outcome}

record Session : Type 0 where
  stored : Tables
  seen : Tables
  out : ℕ
  up : Bool

abbrev ids : Uuid × Uuid
ids = (100, 101)

abbrev asked : (k : Kind) → Statement k → Session → Result (List (Row k)) × Session
asked k st s =
    if s.up
    then ((run ids st s.stored).0, record s { stored = (run ids st s.stored).1 })
    else (err unavailable, s)

abbrev executed : (k : Kind) → Statement k → Session → Result Done × Session
executed k st s =
    if s.up
    then (map_ok (λ l. tt) (run ids st s.seen).0, record s { seen = (run ids st s.seen).1 })
    else (err unavailable, s)

abbrev given_back : Session → Session
given_back s = record s { out = s.out - 1 }

abbrev begun : Exec Session Unit
begun s = (ok tt, record s { seen = s.stored; out = s.out + 1 })

abbrev committed : Exec Session Done
committed s = (ok tt, given_back (record s { stored = s.seen }))

abbrev ended : Result Done × Session → Result Done × Session
ended (ok d, s) = committed s
ended (err e, s) = (err e, given_back s)

executed-ok :
    (k : Kind) (st : Statement k) (s : Session)
    → (executed k st s).0 ≡ ok tt
    → (fresh : Uuid × Uuid) × (rows : List (Row k)) × (run fresh st s.seen
        ≡ (ok rows, (executed k st s).1.seen))
executed-ok k st s h = elim (Bool-cases s.up) [
  | inr down ↦ cc (rw (executed, down) at h)
  | inl up ↦ elim (Result-cases (run ids st s.seen).0) [
    | inr (e, bad) ↦ cc (rw (executed, up, bad) at h)
    | inl (rows, good) ↦ (ids, rows, rw (executed, up) (ap (λ r. (r, (run ids st s.seen).1)) good))
  ]
]

abbrev pool : Pgx
pool = record {
  State = Session;
  tables = λ s. s.stored;
  held = λ s. s.out;
  Conn = Unit;
  acquire = λ s. (ok tt, record s { out = s.out + 1 });
  acquire-held = λ s. refl;
  release = λ c s. given_back s;
  release-held = λ c s. refl;
  release-tables = λ c s. refl;
  query = λ c. asked;
  query-held = λ c k st s. ground arith;
  Tx = Unit;
  view = λ t s. s.seen;
  begin_tx = λ o. begun;
  begin_tx-held = λ o s. refl;
  begin_tx-tables = λ o s. refl;
  begin_tx-view = λ o s t same h. refl;
  exec = λ t. executed;
  exec-ok = λ t. executed-ok;
  exec-tables = λ t k st s. ground arith;
  exec-held = λ t k st s. ground arith;
  commit = λ t. committed;
  commit-ok = λ t s h. refl;
  commit-err = λ t s e h. cc h;
  commit-held = λ t s. refl;
  rollback = λ t s. given_back s;
  rollback-tables = λ t s. refl;
  rollback-held = λ t s. refl;
  begin_tx_func = λ o f s. ended (f tt (begun s).1);
  begin_tx_func-unbegun = λ o f s e h. cc h;
  begin_tx_func-failed = λ o f s t e h g. rw g refl;
  begin_tx_func-done = λ o f s t h g. rw g refl;
}

abbrev session : Bool → Session
session up = record { stored = rows; seen = rows; out = 3; up = up }

-- `home` cannot get the name of `second`.
abbrev clash : Statement Kind.nothing
clash =
    update_profiles (ProfileSet.profile_name "second" ∷ [])
      (ProfileCond.profile_name_is "default" ∷ [])

abbrev all : Statement Kind.profiles
all = select_profiles []

rolled_back :
    ((query_exec pool clash (session true)).1.stored ≡ rows)
    × ((query_exec pool clash (session true)).1.out ≡ 3)
unfolding transaction run
rolled_back = (refl, refl)

selects : (query_rows pool all (session true)).0 ≡ ok (home ∷ second ∷ [])
unfolding connection run
selects = refl

connection_held_example :
    let read = λ (c : Unit {0}). asked Kind.profiles all in
    let s = session false in
    ((connection pool read s).1.out ≡ 3)
    × (((e : Error) × ((pool.acquire s).0 ≡ err e)
          × (connection pool read s ≡ (err e, (pool.acquire s).1)))
        ⊎ ((c : Unit {0}) × ((pool.acquire s).0 ≡ ok c)
            × ((pool.acquire s).1.out ≡ 4)
            × ((connection pool read s).0 ≡ (read c (pool.acquire s).1).0)
            × ((connection pool read s).1.stored ≡ (read c (pool.acquire s).1).1.stored)))
connection_held_example =
    connection_held pool (λ c. asked Kind.profiles all) (session false)
      (λ c t. pool.query-held c Kind.profiles all t)

query_exec_outcome_example :
    ((query_exec pool clash (session true)).1.out ≡ 3)
    × Ended pool clash ids (session true) (query_exec pool clash (session true))
query_exec_outcome_example = query_exec_outcome pool clash ids (session true)
