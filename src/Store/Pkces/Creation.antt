-- ===== src/Store/Pkces/Creation.antt =====
-- CreatePKCE, and FindPKCE after it.
use evesso.Prelude.{
  ◌-◌, ◌≤◌, ◌<◌, ◌≡◌, refl, ap, ◌∙◌, true, false, Option, some, [], ◌∷◌, arith, inl, inr,
  Bool-cases, Option-cases, any, any-false, All-imp, filter-first,
}
use evesso.Exec.{Error, err, Result-cases, ok, ◌>>=◌}
use evesso.Sql.{
  Uuid, Strings, Profile, Pkce, PkceValues, PkceCond, Kind, Tables, run, insert_pkce, select_pkces,
  same_pkce, is_profile, pkce_matches,
}
use evesso.World.{World}
use evesso.Store.Base.{five_minutes}
use evesso.Store.Query.{query_struct}
use evesso.Store.Query.Outcome.{
  query_struct-ok, query_struct-served, query_struct-tables, query_struct-clock,
}
use evesso.Store.Pkces.{make_pkce, create_pkce, find_pkce}

module _ (w : World) where
  open w use {State, tables, served, clock, fresh, Value, marshal}

  -- A new row differs from every stored one, and its profile exists.
  abbrev pub IsAdded : Pkce → Tables → Tables → Type 0
  IsAdded k t t' =
      (any (same_pkce k) t.pkces ≡ false)
      × (is_profile k.profile_ref t ≡ true)
      × (t' ≡ record t { pkces = k ∷ t.pkces })

  insert_pkce-ok :
      (v : PkceValues) (s : State) (ids : Uuid × Uuid)
      → (query_struct w (insert_pkce v) s).0 ≡ ok ids
      → IsAdded
          (record { id = ids.0; state = ids.1; values = v })
          (tables s)
          (tables (query_struct w (insert_pkce v) s).1)
  unfolding run
  insert_pkce-ok v s ids e =
      let (up, meaning) = query_struct-ok w Kind.new_id_state (insert_pkce v) s ids e in
      let after = query_struct-tables w Kind.new_id_state (insert_pkce v) s in
      let added : Pkce = record { id = (fresh s).0; state = (fresh s).1; values = v } in
      elim (Bool-cases (any (same_pkce added) (tables s).pkces)) [
        | inl clash ↦ cc (rw (clash, run) at meaning)
        | inr free ↦ elim (Bool-cases (is_profile v.profile_ref (tables s))) [
          | inr unknown ↦ cc (rw (free, run, unknown) at meaning)
          | inl known ↦
              let same : ok (fresh s ∷ []) ≡ ok (ids ∷ []) = rw (free, run, known) at meaning in
              let eq : fresh s ≡ ids = cc same in
              rw (← eq) (free, known, after ∙ rw (up, run, free, known) refl)
        ]
      ]

  make_pkce-values :
      (p : Profile) (s : State) (v : PkceValues)
      → make_pkce w p s ≡ some v
      → (v.profile_ref ≡ p.id) × (v.created_at ≡ clock s)
  unfolding make_pkce
  make_pkce-values p s v h = elim (Option-cases (w.random s)) [
    | inl e ↦ cc (rw (e, make_pkce) at h)
    | inr (bytes, e) ↦
        let same = rw (e, make_pkce) at h in (ground (arith, same), ground (arith, same))
  ]

  -- What CreatePKCE answers is the row that it adds, made now, for the profile.
  pub create_pkce-ok :
      (p : Profile) (reference_data : Option Value) (scopes : Strings) (s : State) (k : Pkce)
      → (create_pkce w p reference_data scopes s).0 ≡ ok k
      → (k.profile_ref ≡ p.id)
        × (k.scopes ≡ scopes)
        × (k.created_at ≡ clock s)
        × IsAdded k (tables s) (tables (create_pkce w p reference_data scopes s).1)
  unfolding create_pkce
  create_pkce-ok p reference_data scopes s k e = elim (Option-cases (make_pkce w p s)) [
    | inl bad ↦ cc (rw (create_pkce, bad) at e)
    | inr (made, good) ↦ elim (Result-cases (marshal reference_data)) [
      | inr (f, bad) ↦ cc (rw (good, create_pkce, bad) at e)
      | inl (text, read) ↦
          let v : PkceValues = record made { reference_data = some text; scopes = scopes } in
          elim (Result-cases (query_struct w (insert_pkce v) s).0) [
            | inr (f, refused) ↦ cc (rw (good, create_pkce, read, refused, ◌>>=◌) at e)
            | inl (ids, inserted) ↦
                let same : ok (record { id = ids.0; state = ids.1; values = v }) ≡ ok k =
                  rw (good, create_pkce, read, inserted, ◌>>=◌) at e in
                let row : record { id = ids.0; state = ids.1; values = v } ≡ k = cc same in
                let (owner, now) = make_pkce-values p s made good in
                rw (← row, good, create_pkce, read, inserted, ◌>>=◌)
                  (owner, refl, now, insert_pkce-ok v s ids inserted)
          ]
    ]
  ]

  insert_pkce-err :
      (v : PkceValues) (s : State) (e : Error)
      → (query_struct w (insert_pkce v) s).0 ≡ err e
      → tables (query_struct w (insert_pkce v) s).1 ≡ tables s
  unfolding run
  insert_pkce-err v s e failed =
      let after = query_struct-tables w Kind.new_id_state (insert_pkce v) s in
      let added : Pkce = record { id = (fresh s).0; state = (fresh s).1; values = v } in
      elim (Bool-cases (served s)) [
        | inr down ↦ after ∙ rw down refl
        | inl up ↦ elim (Bool-cases (any (same_pkce added) (tables s).pkces)) [
          | inl clash ↦ after ∙ rw (up, run, clash) refl
          | inr free ↦ elim (Bool-cases (is_profile v.profile_ref (tables s))) [
            | inr unknown ↦ after ∙ rw (up, run, free, unknown) refl
            | inl known ↦
                let row =
                  query_struct-served w Kind.new_id_state (insert_pkce v) s (fresh s ∷ []) up
                    (rw (run, free, known) refl) in
                cc (row, failed, w.scan_one-one Kind.new_id_state (fresh s))
          ]
        ]
      ]

  -- Where CreatePKCE fails no table has changed, and in no case does the clock go back.
  pub create_pkce-err :
      (p : Profile) (reference_data : Option Value) (scopes : Strings) (s : State) (x : Error)
      → (create_pkce w p reference_data scopes s).0 ≡ err x
      → tables (create_pkce w p reference_data scopes s).1 ≡ tables s
  unfolding create_pkce
  create_pkce-err p reference_data scopes s x e = elim (Option-cases (make_pkce w p s)) [
    | inl bad ↦ rw (create_pkce, bad) refl
    | inr (made, good) ↦ elim (Result-cases (marshal reference_data)) [
      | inr (f, bad) ↦ rw (good, create_pkce, bad) refl
      | inl (text, read) ↦
          let v : PkceValues = record made { reference_data = some text; scopes = scopes } in
          elim (Result-cases (query_struct w (insert_pkce v) s).0) [
            | inr (f, refused) ↦
                rw (good, create_pkce, read, refused, ◌>>=◌) (insert_pkce-err v s f refused)
            | inl (ids, inserted) ↦ cc (rw (good, create_pkce, read, inserted, ◌>>=◌) at e)
          ]
    ]
  ]

  pub create_pkce-clock :
      (p : Profile) (reference_data : Option Value) (scopes : Strings) (s : State)
      → clock s ≤ clock (create_pkce w p reference_data scopes s).1
  unfolding create_pkce
  create_pkce-clock p reference_data scopes s = elim (Option-cases (make_pkce w p s)) [
    | inl bad ↦ rw (create_pkce, bad) omega arith
    | inr (made, good) ↦ elim (Result-cases (marshal reference_data)) [
      | inr (f, bad) ↦ rw (good, create_pkce, bad) omega arith
      | inl (text, read) ↦
          let v : PkceValues = record made { reference_data = some text; scopes = scopes } in
          let went = query_struct-clock w Kind.new_id_state (insert_pkce v) s in
          elim (Result-cases (query_struct w (insert_pkce v) s).0) [
            | inr (f, refused) ↦ rw (good, create_pkce, read, refused, ◌>>=◌) went
            | inl (ids, inserted) ↦ rw (good, create_pkce, read, inserted, ◌>>=◌) went
          ]
    ]
  ]

  -- A PKCE that CreatePKCE has returned belongs to the profile and has the scopes that were asked for, and
  -- on the tables that it leaves FindPKCE finds it by its state for five minutes from its creation, if the
  -- statement is served.
  pub create_pkce_found :
      (p : Profile) (reference_data : Option Value) (scopes : Strings) (s t : State) (k : Pkce)
      → (create_pkce w p reference_data scopes s).0 ≡ ok k
      → tables t ≡ tables (create_pkce w p reference_data scopes s).1
      → served t ≡ true
      → clock t - five_minutes < clock s
      → (k.profile_ref ≡ p.id) × (k.scopes ≡ scopes) × ((find_pkce w k.state t).0 ≡ ok k)
  unfolding find_pkce run
  create_pkce_found p reference_data scopes s t k e left up young =
      let (owner, wanted, now, (free, _, after)) = create_pkce-ok p reference_data scopes s k e in
      let conds =
        PkceCond.state_is k.state ∷ PkceCond.created_after (clock t - five_minutes) ∷ [] in
      let rest =
        All-imp (λ r. same_pkce k r ≡ false) (λ r. pkce_matches conds r ≡ false)
          (λ r d. ground arith) (tables s).pkces (any-false (same_pkce k) (tables s).pkces free) in
      let hit : pkce_matches conds k ≡ true = ground (arith, now) in
      (
        owner,
        wanted,
        query_struct-served w Kind.pkces (select_pkces conds) t (k ∷ []) up (
              rw (left ∙ after)
                (ap ok (filter-first (pkce_matches conds) k (tables s).pkces hit rest)))
            ∙ w.scan_one-one Kind.pkces k,
      )
