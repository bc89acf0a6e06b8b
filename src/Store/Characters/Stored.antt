-- ===== src/Store/Characters/Stored.antt =====
-- CreateCharacter on any claims: whether or not they are those of a stored grant.
use evesso.Prelude.{
  ◌≡◌, ◌≢◌, refl, sym, String, true, false, Option, ◌==◌, ==_iff, inl, inr, Bool-cases, All, Any,
  All-both, Any-imp, Any-map, Any-element, any, any-true, any-false,
}
use evesso.Exec.{ok}
use evesso.Sql.{Profile, Character, CharacterValues, same_identity}
use evesso.Sql.Schema.{SameIdentity, same_identity_iff, IsConsistent, RefersTo}
use evesso.World.{World}
use evesso.Store.Base.{CharacterClaims, OauthToken}
use evesso.Store.Characters.{new_values, create_character}
use evesso.Store.Characters.Upsert.{refreshed_row, create_character_again, create_character_new}

-- A row for the profile and the identity of the values, with their refresh token.
pub record IsGrant (v : CharacterValues) (c : Character) : Type 0 where
  pub profile_ref : c.profile_ref ≡ v.profile_ref
  pub character_id : c.character_id ≡ v.character_id
  pub character_name : c.character_name ≡ v.character_name
  pub owner : c.owner ≡ v.owner
  pub scopes : c.scopes ≡ v.scopes
  pub refresh_token : c.refresh_token ≡ v.refresh_token

IsGrant-refreshed :
    (v : CharacterValues) (old : Character)
    → SameIdentity v old.values
    → IsGrant v (refreshed_row old.id v.refresh_token old)
IsGrant-refreshed v old same =
    let hit : (old.id == old.id) ≡ true = (==_iff old.id old.id).1 refl in
    rw hit (record {
      profile_ref = sym same.profile_ref;
      character_id = sym same.character_id;
      character_name = sym same.character_name;
      owner = sym same.owner;
      scopes = sym same.scopes;
      refresh_token = refl;
    })

module _ (w : World) (p : Profile) (claims : CharacterClaims) (token : OauthToken)
    (reference_data : Option w.Value) (marshalled : String) (s : w.State)
    (readable : w.marshal reference_data ≡ ok marshalled) (up : w.served s ≡ true) where
  abbrev values : CharacterValues
  values = new_values w p claims token marshalled (w.clock s)

  -- CreateCharacter answers, and a grant for the profile and the claims is stored with the refresh token.
  pub create_character_stored :
      IsConsistent (w.tables s)
      → RefersTo p.id (w.tables s).profiles
      → All (λ c. (w.fresh s).0 ≢ c.id) (w.tables s).characters
      → (c : Character) × ((create_character w p claims token reference_data s).0 ≡ ok c)
        × Any
            (IsGrant values)
            (w.tables (create_character w p claims token reference_data s).1).characters
  create_character_stored h known new =
      let rows = (w.tables s).characters in
      elim (Bool-cases (any (λ c. same_identity values c.values) rows)) [
        | inl found ↦
            let (old, same, there) =
              Any-element (λ c. same_identity values c.values ≡ true) rows
                (any-true (λ c. same_identity values c.values) rows found) in
            let identity = (same_identity_iff values old.values).0 same in
            let (answer, after) =
              create_character_again w p claims token reference_data marshalled s readable up old h
                there identity in
            (
              _,
              answer,
              rw after (
                  Any-map (IsGrant values) (refreshed_row old.id token.refresh_token) rows (
                    Any-imp (λ c. old ≡ c) _
                      (λ c e. rw (← e) (IsGrant-refreshed values old identity)) rows there)),
            )
        | inr unknown ↦
            let unlike = any-false (λ c. same_identity values c.values) rows unknown in
            let (answer, after) =
              create_character_new w p claims token reference_data marshalled s readable up
                (All-both (λ c. same_identity values c.values ≡ false) (λ c. (w.fresh s).0 ≢ c.id) _
                  (λ c other free.
                    (λ same. cc ((same_identity_iff values c.values).1 same, other), free))
                  rows unlike new)
                known in
            (
              _,
              answer,
              rw after (
                  inl (record {
                    profile_ref = refl;
                    character_id = refl;
                    character_name = refl;
                    owner = refl;
                    scopes = refl;
                    refresh_token = refl;
                  })),
            )
      ]
