-- ===== src/Store/GrantTests.antt =====
-- Runs of the store on characters and PKCE rows, and its theorems at concrete ones.
use evesso.Prelude.{◌≡◌, ◌≢◌, inl, inr, refl, arith, eq_iff, String, none, some, [], ◌∷◌, pos, map}
use evesso.Exec.{ok}
use evesso.Sql.{Character}
use evesso.Sql.Schema.{SameIdentity}
use evesso.World.Memory.{memory}
use evesso.World.Samples.{home, grounded, rows, rows-IsConsistent, running}
use evesso.Store.Base.{CharacterClaims, OauthToken}
use evesso.Store.Characters.{new_values, create_character}
use evesso.Store.Characters.Upsert.{refreshed_row, create_character_again, create_character_new}

abbrev newer : OauthToken
newer = record { access_token = "access"; refresh_token = "newer"; expiry = 7 }

abbrev claims_of : Character → CharacterClaims
claims_of c = record {
  character_id = c.character_id;
  character_name = c.character_name;
  owner = c.owner;
  scopes = c.scopes;
}

abbrev carol : CharacterClaims
carol = record {
  character_id = pos 9003;
  character_name = "Carol";
  owner = "owner";
  scopes = some ("mail" ∷ []);
}

abbrev carol_row : Character
carol_row = record { id = 100; values = new_values memory home carol newer "null" 1060000000 }

ada_not_carol : ◌≢◌ {A = String} "Carol" "Ada"
ada_not_carol e = cc ((eq_iff "Carol" "Ada").1 e)

bob_not_carol : ◌≢◌ {A = String} "Carol" "Bob"
bob_not_carol e = cc ((eq_iff "Carol" "Bob").1 e)

create_character_new_example :
    ((create_character memory home carol newer none running).0 ≡ ok carol_row)
    × ((create_character memory home carol newer none running).1.contents
        ≡ record rows { characters = carol_row ∷ rows.characters })
create_character_new_example =
    create_character_new memory home carol newer none "null" running refl refl
      (
        (λ h. ada_not_carol h.character_name, λ e. omega (arith, e)),
        (
          (λ h. ada_not_carol h.character_name, λ e. omega (arith, e)),
          ((λ h. bob_not_carol h.character_name, λ e. omega (arith, e)), tt),
        ),
      )
      (inl refl)

grounded-SameIdentity :
    SameIdentity
      (new_values memory home (claims_of grounded) newer "null" 1060000000)
      grounded.values
grounded-SameIdentity = record {
  profile_ref = refl;
  character_id = refl;
  character_name = refl;
  owner = refl;
  scopes = refl;
  not_null = λ e. cc e;
}

create_character_again_example :
    ((create_character memory home (claims_of grounded) newer none running).0
      ≡ ok (record {
        id = 12;
        values = new_values memory home (claims_of grounded) newer "null" 1060000000;
      }))
    × ((create_character memory home (claims_of grounded) newer none running).1.contents
        ≡ record rows { characters = map (refreshed_row 12 "newer") rows.characters })
create_character_again_example =
    create_character_again memory home (claims_of grounded) newer none "null" running refl refl
      grounded rows-IsConsistent (inr (inr (inl refl))) grounded-SameIdentity
