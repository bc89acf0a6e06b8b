-- ===== src/Store/Characters/Tokens.antt =====
-- The Update methods of Character, and Token.
use mathlib.Core.Path.{fun_ext}
use evesso.Prelude.{
  ◌≡◌, refl, ap, ◌∙◌, String, Bool, [], ◌∷◌, map, arith, ◌==◌, if◌then◌else◌, inl, inr, ◌⊎◌,
  Bool-cases,
}
use evesso.Exec.{unavailable, ok, err}
use evesso.Sql.{
  Uuid, Time, Character, CharacterSet, CharacterCond, Kind, Statement, Tables, run,
  update_characters,
}
use evesso.World.{World}
use evesso.Store.Query.{query_nil}
use evesso.Store.Query.Outcome.{query_nil-tables, query_nil-reply}
use evesso.Store.Characters.{update_access_token, update_refresh_token, update_active_state}

-- One column of one character, with the time of the change.
abbrev pub changed_row : Uuid → (Character → Character) → Time → Character → Character
changed_row id f now c =
    if c.id == id
    then (let d = f c in record d { values = record d.values { updated_at = now } })
    else c

abbrev pub change : Uuid → (Character → Character) → Time → Tables → Tables
change id f now t = record t { characters = map (changed_row id f now) t.characters }

abbrev pub with_access_token : String → Character → Character
with_access_token v c = record c { values = record c.values { access_token = v } }

abbrev pub with_refresh_token : String → Character → Character
with_refresh_token v c = record c { values = record c.values { refresh_token = v } }

abbrev pub with_active : Bool → Character → Character
with_active v c = record c { values = record c.values { active = v } }

module _ (w : World) (c : Character) (s : w.State) where
  abbrev set_in_row : CharacterSet → Statement Kind.nothing
  set_in_row set =
      update_characters (set ∷ CharacterSet.updated_at (w.clock s) ∷ [])
        (CharacterCond.id_is c.id ∷ [])

  abbrev after_set : (Character → Character) → Tables
  after_set f = change c.id f (w.clock s) (w.tables s)

  set_outcome :
      (set : CharacterSet) (f : Character → Character)
      → (run (w.fresh s) (set_in_row set) (w.tables s)).1 ≡ after_set f
      → let (r, s') = query_nil w (set_in_row set) s in
        ((r ≡ ok tt) × (w.tables s' ≡ after_set f))
        ⊎ ((r ≡ err unavailable) × (w.tables s' ≡ w.tables s))
  unfolding run
  set_outcome set f meaning =
      let reply = query_nil-reply w Kind.nothing (set_in_row set) s refl in
      let after = query_nil-tables w Kind.nothing (set_in_row set) s refl in
      elim (Bool-cases (w.served s)) [
        | inl up ↦ inl (reply ∙ rw up refl, after ∙ rw up meaning)
        | inr down ↦ inr (reply ∙ rw down refl, after ∙ rw down refl)
      ]

  abbrev map_rows : (Character → Character) → Tables
  map_rows f = record (w.tables s) { characters = map f (w.tables s).characters }

  -- UpdateActiveState changes the flag of the object, and the flag and updated_at of its row alone; or
  -- it fails, and then object and tables are as before.
  pub update_active_state_outcome :
      (active : Bool)
      → let (r, c', s') = update_active_state w c active s in
        ((r ≡ ok tt) × (c' ≡ with_active active c) × (w.tables s' ≡ after_set (with_active active)))
        ⊎ ((r ≡ err unavailable) × (c' ≡ c) × (w.tables s' ≡ w.tables s))
  unfolding update_active_state run
  update_active_state_outcome active =
      let set = CharacterSet.active active in
      elim (set_outcome set (with_active active) (ap map_rows (fun_ext λ d. ground arith))) [
        | inl (done, after) ↦ inl (rw (done, update_active_state) (refl, refl, after))
        | inr (failed, after) ↦ inr (rw (failed, update_active_state) (refl, refl, after))
      ]

  -- UpdateAccessToken changes the token of the object in any case, and writes it and updated_at to its
  -- row alone; where it fails no table has changed, and the object has a token that its row has not.
  pub update_access_token_outcome :
      (v : String)
      → let (r, c', s') = update_access_token w c v s in
        (c' ≡ with_access_token v c)
        × (((r ≡ ok tt) × (w.tables s' ≡ after_set (with_access_token v)))
            ⊎ ((r ≡ err unavailable) × (w.tables s' ≡ w.tables s)))
  unfolding update_access_token run
  update_access_token_outcome v = (
    refl,
    set_outcome (CharacterSet.access_token v) (with_access_token v)
        (ap map_rows (fun_ext λ d. ground arith)),
  )

  -- UpdateRefreshToken does the same with the refresh token.
  pub update_refresh_token_outcome :
      (v : String)
      → let (r, c', s') = update_refresh_token w c v s in
        (c' ≡ with_refresh_token v c)
        × (((r ≡ ok tt) × (w.tables s' ≡ after_set (with_refresh_token v)))
            ⊎ ((r ≡ err unavailable) × (w.tables s' ≡ w.tables s)))
  unfolding update_refresh_token run
  update_refresh_token_outcome v = (
    refl,
    set_outcome (CharacterSet.refresh_token v) (with_refresh_token v)
        (ap map_rows (fun_ext λ d. ground arith)),
  )
