-- ===== src/Startup/Migrated.antt =====
-- The state of the store and of the database after Setup.
use mathlib.Core.Path.{subst}
use evesso.Prelude.{◌≡◌, ◌⊎◌, refl, ap, ◌∙◌, arith, inl, inr, true, Bool-cases, String, none, some}
use evesso.Exec.{Error, no_change, ok, err, pure, lift, ◌>>=◌, Result-cases}
use evesso.Startup.Migrations.{
  Postgres, PgStore, instance_config, is_no_change, migrate, new_pg_store, setup,
}

no_change_of : (e : Error) → is_no_change e ≡ true → e ≡ no_change
no_change_of e h = ground (arith, h)

module _ (p : Postgres) where
  open p use {
    State, Driver, open_driver, Config, parse_config, new_pool, with_instance, Migrate, new_migrate,
    is_current, up, up-ok, up-no_change,
  }

  migrate-ok :
      (m : Migrate) (s : State) → (migrate p m s).0 ≡ ok tt → is_current m (migrate p m s).1 ≡ true
  unfolding migrate
  migrate-ok m s h = elim (Result-cases (up m s).0) [
    | inl (d, e) ↦ rw (migrate, e) (up-ok m s e)
    | inr (x, e) ↦ elim (Bool-cases (is_no_change x)) [
      | inl same ↦ rw (migrate, e, same) (up-no_change m s (e ∙ ap err (no_change_of x same)))
      | inr other ↦ cc (rw (migrate, e, other) at h)
    ]
  ]

  -- Connected to a database whose schema has the latest version, and without the lock connection.
  pub record IsReady (x : PgStore p) (s : State) : Type 0 where
    pub pool : p.Pool
    pub migrations : Migrate
    pub has_pool : x.pool ≡ some pool
    pub has_migrations : x.migrations ≡ some migrations
    pub has_no_lock : x.lock ≡ none
    pub current : is_current migrations s ≡ true

  new_pg_store-IsReady :
      (dsn : String) (s : State) (x : PgStore p)
      → (new_pg_store p dsn s).0 ≡ ok x
      → IsReady x (new_pg_store p dsn s).1
  unfolding new_pg_store
  new_pg_store-IsReady dsn s x h = elim (Result-cases open_driver) [
    | inr (y, e) ↦ cc (rw (new_pg_store, ◌>>=◌, lift, e) at h)
    | inl (driver, e) ↦ elim (Result-cases (parse_config dsn)) [
      | inr (y, f) ↦ cc (rw (new_pg_store, ◌>>=◌, lift, e, f) at h)
      | inl (c, f) ↦
          let s1 = (new_pool c s).1 in
          elim (Result-cases (new_pool c s).0) [
            | inr (y, g) ↦ cc (rw (new_pg_store, ◌>>=◌, lift, e, f, g) at h)
            | inl (pool, g) ↦
                let s2 = (with_instance c (instance_config p c) s1).1 in
                elim (Result-cases (with_instance c (instance_config p c) s1).0) [
                  | inr (y, k) ↦ cc (rw (new_pg_store, ◌>>=◌, lift, e, f, g, k) at h)
                  | inl (i, k) ↦
                      let s3 = (new_migrate driver i s2).1 in
                      elim (Result-cases (new_migrate driver i s2).0) [
                        | inr (y, l) ↦ cc (rw (new_pg_store, ◌>>=◌, lift, e, f, g, k, l) at h)
                        | inl (m, l) ↦ elim (Result-cases (migrate p m s3).0) [
                          | inr (y, o) ↦ cc (rw (new_pg_store, ◌>>=◌, lift, e, f, g, k, l, o) at h)
                          | inl (d, o) ↦
                              let made : PgStore p = record {
                                schema = "";
                                pool = some pool;
                                lock = none;
                                migrations = some m;
                              } in
                              let same : made ≡ x =
                                cc (rw (new_pg_store, ◌>>=◌, lift, e, f, g, k, l, o, pure) at h) in
                              rw (new_pg_store, ◌>>=◌, lift, e, f, g, k, l, o, pure)
                                (subst (λ y. IsReady y (migrate p m s3).1) same
                                  (record {
                                    pool = pool;
                                    migrations = m;
                                    has_pool = refl;
                                    has_migrations = refl;
                                    has_no_lock = refl;
                                    current = migrate-ok m s3 o;
                                  }))
                        ]
                      ]
                ]
          ]
    ]
  ]

  -- Setup returns an error and leaves the store's fields as they were, or it returns nil, and then the
  -- store has a pool and no lock connection, and the database is at the latest version, also where there
  -- was nothing to migrate.
  pub setup-outcome :
      (dsn : String) (x : PgStore p) (s : State)
      → let (r, x', s') = setup p dsn x s in
        ((r ≡ ok tt) × IsReady x' s') ⊎ ((e : Error) × (r ≡ err e) × (x' ≡ x))
  unfolding setup
  setup-outcome dsn x s = elim (Result-cases (new_pg_store p dsn s).0) [
    | inr (e, f) ↦ inr (e, (rw (setup, f) refl), (rw (setup, f) refl))
    | inl (ds, f) ↦ inl ((rw (setup, f) refl), (rw (setup, f) (new_pg_store-IsReady dsn s ds f)))
  ]
