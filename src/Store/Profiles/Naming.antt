-- ===== src/Store/Profiles/Naming.antt =====
-- Creating, finding and renaming profiles.
use evesso.Prelude.{
  ◌≡◌, ◌≢◌, refl, ap, ◌∙◌, true, false, String, Option, List, [], ◌∷◌, map, arith, ◌==◌, eq_iff,
  if◌then◌else◌, inl, inr, ◌⊎◌, Bool-cases, any, unique_by, All, Any, All-imp, Any-imp, Any-map,
  any-false, unique_by-Pairs, filter-first, Pairs-clash,
}
use mathlib.Core.Path.{fun_ext}
use evesso.Exec.{Error, unavailable, unique_violation, Result-cases, ok, err, ◌>>=◌}
use evesso.Sql.{
  Uuid, Time, Profile, ProfileValues, ProfileCond, ProfileSet, Kind, Statement, Tables, run,
  profile_matches, same_profile, insert_profile, select_profiles, update_profiles,
}
use evesso.Sql.Schema.{RefersTo}
use evesso.World.{World}
use evesso.Store.Query.{query_nil, query_struct}
use evesso.Store.Query.Outcome.{
  query_struct-tables, query_struct-ok, query_struct-served, query_nil-tables, query_nil-reply,
}
use evesso.Store.Profiles.{profile_json, new_profile, get_profile, find_profile, rename}

-- The row of the profile `id` under its new name; other rows stay as they are.
abbrev pub renamed_row : Uuid → String → Time → Profile → Profile
renamed_row id name now q =
    if q.id == id
    then record q { values = record q.values { profile_name = name; updated_at = now } }
    else q

abbrev pub with_name : Profile → String → Profile
with_name p name = record p { values = record p.values { profile_name = name } }

module _ (w : World) where
  open w use {State, tables, served, clock, fresh}

  abbrev renamed : Profile → String → State → List Profile
  renamed p name s = map (renamed_row p.id name (clock s)) (tables s).profiles

  abbrev pub rename_tables : Profile → String → State → Tables
  rename_tables p name s = record (tables s) { profiles = renamed p name s }

  abbrev update_of : Profile → String → State → Statement Kind.nothing
  update_of p name s =
      update_profiles (ProfileSet.profile_name name ∷ ProfileSet.updated_at (clock s) ∷ [])
        (ProfileCond.id_is p.id ∷ [])

  -- The statement's meaning, with the condition of its WHERE read.
  run-update_of :
      (p : Profile) (name : String) (s : State)
      → run (fresh s) (update_of p name s) (tables s) ≡ (
          if unique_by same_profile (renamed p name s)
          then (ok [], rename_tables p name s)
          else (err unique_violation, tables s))
  unfolding run
  run-update_of p name s =
      ap
        (λ (f : Profile → Profile).
          if unique_by same_profile (map f (tables s).profiles)
          then (ok [], record (tables s) { profiles = map f (tables s).profiles })
          else (err unique_violation, tables s))
        (fun_ext λ q. ground arith)

  -- The two outcomes of the statement.
  update_outcome :
      (p : Profile) (name : String) (s : State)
      → let (r, s') = query_nil w (update_of p name s) s in
        ((r ≡ ok tt)
          × (unique_by same_profile (renamed p name s) ≡ true)
          × (tables s' ≡ rename_tables p name s))
        ⊎ ((e : Error) × (r ≡ err e) × (tables s' ≡ tables s))
  update_outcome p name s =
      let reply = query_nil-reply w Kind.nothing (update_of p name s) s refl in
      let after = query_nil-tables w Kind.nothing (update_of p name s) s refl in
      let meaning = run-update_of p name s in
      elim (Bool-cases (served s)) [
        | inl up ↦ elim (Bool-cases (unique_by same_profile (renamed p name s))) [
          | inl free ↦ inl (ground arith, free, ground arith)
          | inr clash ↦ inr (unique_violation, ground arith, ground arith)
        ]
        | inr down ↦ inr (unavailable, ground arith, ground arith)
      ]

  -- Rename either succeeds, and then object and row carry the new name and nothing else has changed but
  -- the row's updated_at; or it fails, and then object and tables are as before.
  pub rename_outcome :
      (p : Profile) (name : String) (s : State)
      → let (r, p', s') = rename w p name s in
        ((r ≡ ok tt) × (p' ≡ with_name p name) × (tables s' ≡ rename_tables p name s))
        ⊎ ((e : Error) × (r ≡ err e) × (p' ≡ p) × (tables s' ≡ tables s))
  unfolding rename
  rename_outcome p name s = elim (update_outcome p name s) [
    | inl (done, free, after) ↦ inl (rw (done, rename) (refl, refl, after))
    | inr (e, failed, after) ↦
        inr (e, (rw (failed, rename) refl), (rw (failed, rename) refl), (rw (failed, rename) after))
  ]

  -- The row of `p` under the new name clashes with the row that has it.
  renamed_clash :
      (p : Profile) (name : String) (s : State)
      → RefersTo p.id (tables s).profiles
      → Any (λ q. (q.id ≢ p.id) × (q.profile_name ≡ name)) (tables s).profiles
      → unique_by same_profile (renamed p name s) ≢ true
  renamed_clash p name s known taken free =
      let keys = unique_by-Pairs same_profile (renamed p name s) free in
      let own =
        Any-map (λ q. (q.id ≡ p.id) × (q.profile_name ≡ name)) _ (tables s).profiles
          (Any-imp (λ q. q.id ≡ p.id) _ (λ q e. ground arith) (tables s).profiles known) in
      let other =
        Any-map (λ q. (q.id ≢ p.id) × (q.profile_name ≡ name)) _ (tables s).profiles
          (Any-imp (λ q. (q.id ≢ p.id) × (q.profile_name ≡ name)) _ (λ q e. ground arith)
            (tables s).profiles taken) in
      Pairs-clash (λ a b. same_profile a b ≡ false) (λ q. (q.id ≡ p.id) × (q.profile_name ≡ name))
        (λ q. (q.id ≢ p.id) × (q.profile_name ≡ name))
        (λ x y px qy d. ground (arith, eq_iff x.profile_name y.profile_name))
        (λ x y px qy d. ground (arith, eq_iff x.profile_name y.profile_name)) (λ x px qx. qx.0 px.0)
        (renamed p name s) keys own other

  -- A name that another profile has is refused: neither object nor tables change.
  pub rename_taken :
      (p : Profile) (name : String) (s : State)
      → RefersTo p.id (tables s).profiles
      → Any (λ q. (q.id ≢ p.id) × (q.profile_name ≡ name)) (tables s).profiles
      → let (r, p', s') = rename w p name s in (r ≢ ok tt) × (p' ≡ p) × (tables s' ≡ tables s)
  unfolding rename
  rename_taken p name s known taken = elim (update_outcome p name s) [
    | inl (done, free, after) ↦ absurd (renamed_clash p name s known taken free)
    | inr (e, failed, after) ↦ rw (failed, rename) (λ same. cc, refl, after)
  ]

  insert_outcome :
      (v : ProfileValues) (s : State) (id : Uuid)
      → (query_struct w (insert_profile v) s).0 ≡ ok id
      → let p : Profile = record { id = id; values = v } in
        (any (same_profile p) (tables s).profiles ≡ false)
        × (tables (query_struct w (insert_profile v) s).1
            ≡ record (tables s) { profiles = p ∷ (tables s).profiles })
  unfolding run
  insert_outcome v s id e =
      let (up, meaning) = query_struct-ok w Kind.new_id (insert_profile v) s id e in
      let after = query_struct-tables w Kind.new_id (insert_profile v) s in
      let added : Profile = record { id = (fresh s).0; values = v } in
      elim (Bool-cases (any (same_profile added) (tables s).profiles)) [
        | inl clash ↦ cc (rw (clash, run) at meaning)
        | inr free ↦
            let same : ok ((fresh s).0 ∷ []) ≡ ok (id ∷ []) = rw (free, run) at meaning in
            let ids : (fresh s).0 ≡ id = cc same in
            rw (← ids) (free, after ∙ rw (up, run, free) refl)
      ]

  -- What a profile that NewProfile returns is, and what has been added to the tables.
  new_profile-ok :
      (name : String) (value : Option w.Value) (s : State) (p : Profile)
      → (new_profile w name value s).0 ≡ ok p
      → (p.profile_name ≡ name)
        × (any (same_profile p) (tables s).profiles ≡ false)
        × (tables (new_profile w name value s).1
            ≡ record (tables s) { profiles = p ∷ (tables s).profiles })
  unfolding new_profile
  new_profile-ok name value s p e = elim (Result-cases (profile_json w value)) [
    | inr (f, bad) ↦ cc (rw (bad, new_profile) at e)
    | inl (d, good) ↦
        let v : ProfileValues = record {
          profile_name = name;
          profile_data = d;
          created_at = clock s;
          updated_at = clock s;
        } in
        elim (Result-cases (query_struct w (insert_profile v) s).0) [
          | inr (f, refused) ↦ cc (rw (good, new_profile, refused, ◌>>=◌) at e)
          | inl (id, inserted) ↦
              let same : ok (record { id = id; values = v }) ≡ ok p =
                rw (good, new_profile, inserted, ◌>>=◌) at e in
              let made : record { id = id; values = v } ≡ p = cc same in
              let (free, after) = insert_outcome v s id inserted in
              rw (← made, good, new_profile, inserted, ◌>>=◌) (refl, free, after)
        ]
  ]

  -- The row that was added answers a query that it alone matches.
  added_found :
      (p : Profile) (s' : State) (t : Tables) (c : ProfileCond)
      → tables s' ≡ record t { profiles = p ∷ t.profiles }
      → served s' ≡ true
      → profile_matches (c ∷ []) p ≡ true
      → All (λ q. profile_matches (c ∷ []) q ≡ false) t.profiles
      → (query_struct w (select_profiles (c ∷ [])) s').0 ≡ ok p
  unfolding run
  added_found p s' t c after up hit rest =
      query_struct-served w Kind.profiles (select_profiles (c ∷ [])) s' (p ∷ []) up
        (rw after (ap ok (filter-first (profile_matches (c ∷ [])) p t.profiles hit rest)))
      ∙ w.scan_one-one Kind.profiles p

  -- A profile that NewProfile has returned is found by its id and by its name, by the next statement
  -- that is served.
  pub new_profile_found :
      (name : String) (value : Option w.Value) (s : State) (p : Profile)
      → (new_profile w name value s).0 ≡ ok p
      → let s' = (new_profile w name value s).1 in
        served s' ≡ true → ((get_profile w p.id s').0 ≡ ok p) × ((find_profile w name s').0 ≡ ok p)
  unfolding get_profile find_profile
  new_profile_found name value s p e up =
      let s' = (new_profile w name value s).1 in
      let (named, free, after) = new_profile-ok name value s p e in
      let apart = any-false (same_profile p) (tables s).profiles free in
      (
        added_found p s' (tables s) (ProfileCond.id_is p.id) after up (ground arith)
            (All-imp (λ q. same_profile p q ≡ false) _ (λ q d. ground arith) _ apart),
        added_found p s' (tables s) (ProfileCond.profile_name_is name) after up
            (ground (arith, eq_iff p.profile_name name))
            (All-imp (λ q. same_profile p q ≡ false)
              (λ q. profile_matches (ProfileCond.profile_name_is name ∷ []) q ≡ false)
              (λ q d.
                ground
                  (arith, named, eq_iff p.profile_name q.profile_name, eq_iff q.profile_name name))
              _ apart),
      )
