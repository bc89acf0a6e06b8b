-- ===== src/Pool/Atomic.antt =====
-- What Connection and Transaction keep, and a statement of Query in a transaction.
use evesso.Prelude.{◌+◌, ◌≡◌, refl, ◌∙◌, arith, inl, inr, ◌⊎◌, List}
use evesso.Exec.{Error, Result, ok, err, Exec, Result-cases}
use evesso.Sql.{
  Uuid, Tables, Kind, Row, Statement, run, update_profiles, update_characters, delete_profiles,
  delete_pkces, delete_characters,
}
use evesso.Pool.{Pgx, tx_options, connection, transaction, query_exec}

-- A statement that inserts nothing does not use what gen_random_uuid() answers.
run_fresh : (f g : Uuid × Uuid) (st : Statement Kind.nothing) (t : Tables) → run f st t ≡ run g st t
unfolding run
run_fresh f g (update_profiles sets cs) t = refl
run_fresh f g (update_characters sets cs) t = refl
run_fresh f g (delete_profiles cs) t = refl
run_fresh f g (delete_pkces cs) t = refl
run_fresh f g (delete_characters cs) t = refl

module _ (p : Pgx) where
  open p use {
    State, tables, held, Conn, acquire, acquire-held, release, release-held, release-tables, Tx,
    begin_tx, begin_tx-held, begin_tx-tables, begin_tx-view, exec, exec-ok, exec-tables, exec-held,
    commit, commit-ok, commit-err, commit-held, rollback, rollback-tables, rollback-held,
    begin_tx_func-unbegun, begin_tx_func-failed, begin_tx_func-done,
  }

  -- Connection with a function that gives back what it acquires keeps no connection itself, however it
  -- ends: it returns the error of Acquire, and the function has not run, or the function has run on the
  -- acquired connection, while one more was held, with its result and the tables that it left.
  pub connection_held :
      {A : Type 0} (f : Conn → Exec State A) (s : State)
      → ((c : Conn) (t : State) → held (f c t).1 ≡ held t)
      → (held (connection p f s).1 ≡ held s)
        × (((e : Error) × ((acquire s).0 ≡ err e) × (connection p f s ≡ (err e, (acquire s).1)))
            ⊎ ((c : Conn) × ((acquire s).0 ≡ ok c)
                × (held (acquire s).1 ≡ held s + 1)
                × ((connection p f s).0 ≡ (f c (acquire s).1).0)
                × (tables (connection p f s).1 ≡ tables (f c (acquire s).1).1)))
  unfolding connection
  connection_held f s balanced =
      let counted = acquire-held s in
      let s1 = (acquire s).1 in
      elim (Result-cases (acquire s).0) [
        | inr (x, e) ↦ rw (connection, e) (rw e at counted, inl (x, refl, refl))
        | inl (c, e) ↦
            let more : held s1 ≡ held s + 1 = rw e at counted in
            rw (connection, e)
              (
                omega (arith, release-held c (f c s1).1, balanced c s1, more),
                inr (c, refl, more, refl, release-tables c (f c s1).1),
              )
      ]

  -- How the one statement of a transaction ended: it was committed and means this; it changed nothing; or
  -- the error is one of Commit, and it was committed all the same.
  abbrev pub Ended :
      Statement Kind.nothing → Uuid × Uuid → State → Result (Unit {0}) × State → Type 0
  Ended st fresh s out =
      ((rows : List (Row Kind.nothing)) × (out.0 ≡ ok tt)
        × (run fresh st (tables s) ≡ (ok rows, tables out.1)))
      ⊎ (((e : Error) × (out.0 ≡ err e) × (tables out.1 ≡ tables s))
          ⊎ ((e : Error) × (rows : List (Row Kind.nothing)) × (t : Tx) × (u : State) × (out.0
                ≡ err e)
              × ((commit t u).0 ≡ err e)
              × (run fresh st (tables s) ≡ (ok rows, tables out.1))))

  exec_failed :
      (st : Statement Kind.nothing) (fresh : Uuid × Uuid) (s : State) (t : Tx) (x : Error)
      → (begin_tx tx_options s).0 ≡ ok t
      → (exec t Kind.nothing st (begin_tx tx_options s).1).0 ≡ err x
      → (held (query_exec p st s).1 ≡ held s) × Ended st fresh s (query_exec p st s)
  unfolding transaction
  exec_failed st fresh s t x begun failed =
      let s1 = (begin_tx tx_options s).1 in
      let s2 = (exec t Kind.nothing st s1).1 in
      let same =
        begin_tx_func-failed tx_options (λ tx. exec tx Kind.nothing st) s t x begun failed in
      rw (query_exec, transaction, same)
        (
          omega (
            arith,
            rollback-held t s2,
            exec-held t Kind.nothing st s1,
            rw begun at (begin_tx-held tx_options s),
          ),
          inr (
              inl (
                x,
                refl,
                rollback-tables t s2
                    ∙ exec-tables t Kind.nothing st s1
                    ∙ begin_tx-tables tx_options s,
              )),
        )

  exec_done :
      (st : Statement Kind.nothing) (fresh : Uuid × Uuid) (s : State) (t : Tx)
      → (begin_tx tx_options s).0 ≡ ok t
      → (exec t Kind.nothing st (begin_tx tx_options s).1).0 ≡ ok tt
      → (held (query_exec p st s).1 ≡ held s) × Ended st fresh s (query_exec p st s)
  unfolding transaction
  exec_done st fresh s t begun done =
      let s1 = (begin_tx tx_options s).1 in
      let s2 = (exec t Kind.nothing st s1).1 in
      let same = begin_tx_func-done tx_options (λ tx. exec tx Kind.nothing st) s t begun done in
      let snapshot = begin_tx-view tx_options s t refl begun in
      let (drawn, rows, ran) = exec-ok t Kind.nothing st s1 done in
      let meant : run fresh st (tables s) ≡ (ok rows, p.view t s2) =
        run_fresh fresh drawn st (tables s) ∙ (rw snapshot at ran) in
      let kept : held (commit t s2).1 ≡ held s = omega (
        arith,
        commit-held t s2,
        exec-held t Kind.nothing st s1,
        rw begun at (begin_tx-held tx_options s),
      ) in
      elim (Result-cases (commit t s2).0) [
        | inl (d, e) ↦
            rw (query_exec, transaction, same) (kept, inl (rows, e, rw (commit-ok t s2 e) meant))
        | inr (x, e) ↦ elim (commit-err t s2 x e) [
          | inl lost ↦
              rw (query_exec, transaction, same)
                (
                  kept,
                  inr (
                      inl (
                        x,
                        e,
                        lost ∙ exec-tables t Kind.nothing st s1 ∙ begin_tx-tables tx_options s,
                      )),
                )
          | inr took ↦
              rw (query_exec, transaction, same)
                (kept, inr (inr (x, rows, t, s2, e, e, rw took meant)))
        ]
      ]

  -- Query with a nil output keeps no connection, and its statement has its whole effect or none: where it
  -- returns no error, the tables are what the statement means, and the statement is not one that the
  -- schema refuses; where it returns an error, no table has changed, or the error is one of Commit, and
  -- the tables are what the statement means.
  pub query_exec_outcome :
      (st : Statement Kind.nothing) (fresh : Uuid × Uuid) (s : State)
      → (held (query_exec p st s).1 ≡ held s) × Ended st fresh s (query_exec p st s)
  unfolding transaction
  query_exec_outcome st fresh s = elim (Result-cases (begin_tx tx_options s).0) [
    | inr (x, e) ↦
        let same = begin_tx_func-unbegun tx_options (λ tx. exec tx Kind.nothing st) s x e in
        rw (query_exec, transaction, same)
          (rw e at (begin_tx-held tx_options s), inr (inl (x, refl, begin_tx-tables tx_options s)))
    | inl (t, e) ↦ elim (Result-cases (exec t Kind.nothing st (begin_tx tx_options s).1).0) [
      | inr (x, f) ↦ exec_failed st fresh s t x e f
      | inl (d, f) ↦ exec_done st fresh s t e f
    ]
  ]
