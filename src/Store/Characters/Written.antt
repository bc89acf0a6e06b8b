-- ===== src/Store/Characters/Written.antt =====
-- What CreateCharacter does to the stored characters, on any claims and whether it succeeds or not.
use evesso.Prelude.{
  ◌≡◌, refl, ap, ◌∙◌, String, Option, List, ◌∷◌, map, ◌⊎◌, inl, inr, Bool-cases, Option-cases, any,
  find_first,
}
use evesso.Exec.{Result-cases, ◌>>=◌}
use evesso.Sql.{
  Uuid, Time, Profile, Character, CharacterValues, Kind, Tables, run, same_identity, same_character,
  is_profile, upsert_character,
}
use evesso.World.{World}
use evesso.Store.Base.{CharacterClaims, OauthToken}
use evesso.Store.Query.{query_struct}
use evesso.Store.Query.Outcome.{query_struct-tables}
use evesso.Store.Characters.{new_values, create_character}
use evesso.Store.Characters.Upsert.{refreshed_row}

-- The rows after an upsert of the values: the same, one more, or one with another refresh token
abbrev pub Upserted : CharacterValues → List Character → List Character → Type 0
Upserted v rows after =
    (after ≡ rows)
    ⊎ (((id : Uuid) × (after ≡ record { id = id; values = v } ∷ rows))
        ⊎ ((id : Uuid) × (after ≡ map (refreshed_row id v.refresh_token) rows)))

upsert-Upserted :
    (fresh : Uuid × Uuid) (v : CharacterValues) (t : Tables)
    → Upserted v t.characters (run fresh (upsert_character v) t).1.characters
unfolding run
upsert-Upserted fresh v t =
    elim (Option-cases (find_first (λ c. same_identity v c.values) t.characters)) [
      | inr (old, found) ↦ inr (inr (old.id, rw (run, found) refl))
      | inl unknown ↦
          let added : Character = record { id = fresh.0; values = v } in
          elim (Bool-cases (any (same_character added) t.characters)) [
            | inl taken ↦ inl (rw (run, unknown, taken) refl)
            | inr free ↦ elim (Bool-cases (is_profile v.profile_ref t)) [
              | inl known ↦ inr (inl (fresh.0, rw (run, unknown, free, known) refl))
              | inr missing ↦ inl (rw (run, unknown, free, missing) refl)
            ]
          ]
    ]

module _ (w : World) where
  open w use {State, tables, served, fresh, clock, marshal, Value}

  pub create_character-Upserted :
      (p : Profile) (claims : CharacterClaims) (token : OauthToken) (value : Option Value)
      (s : State)
      → (text : String) × (now : Time) × Upserted
          (new_values w p claims token text now)
          (tables s).characters
          (tables (create_character w p claims token value s).1).characters
  unfolding create_character
  create_character-Upserted p claims token value s = elim (Result-cases (marshal value)) [
    | inr (e, failed) ↦ ("", 0, inl (rw (create_character, failed, ◌>>=◌) refl))
    | inl (text, read) ↦
        let v = new_values w p claims token text (clock s) in
        let st = upsert_character v in
        let changed : Upserted v (tables s).characters (tables (query_struct w st s).1).characters =
          elim (Bool-cases (served s)) [
            | inr down ↦
                let same : tables (query_struct w st s).1 ≡ tables s =
                  query_struct-tables w Kind.new_id st s ∙ rw down refl in
                inl (ap (λ t. t.characters) same)
            | inl up ↦
                let after : tables (query_struct w st s).1 ≡ (run (fresh s) st (tables s)).1 =
                  query_struct-tables w Kind.new_id st s ∙ rw up refl in
                rw after (upsert-Upserted (fresh s) v (tables s))
          ] in
        elim (Result-cases (query_struct w st s).0) [
          | inl (id, e) ↦ (text, clock s, rw (create_character, read, ◌>>=◌, e) changed)
          | inr (f, e) ↦ (text, clock s, rw (create_character, read, ◌>>=◌, e) changed)
        ]
  ]
