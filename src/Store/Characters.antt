-- ===== src/Store/Characters.antt =====
-- Character.go, and CreateCharacter of Profile.go.
pub mod Upsert
pub mod Stored
pub mod Tokens
pub mod Reading
pub mod Written
use Prim.Native.String.{len}
use evesso.Prelude.{String, Bool, true, Option, none, some, List, [], ◌∷◌, ltb, if◌then◌else◌}
use evesso.Exec.{Done, Result, ok, err, Exec, pure, lift, gets, ◌>>=◌}
use evesso.Sql.{
  Time, Profile, Character, CharacterValues, CharacterCond, CharacterSet, select_tokens,
  upsert_character, update_characters, delete_characters,
}
use evesso.World.{World}
use evesso.Store.Base.{CharacterClaims, OauthToken}
use evesso.Store.Query.{query_nil, query_struct}
use evesso.Store.Profiles.{get_profile}

module _ (w : World) where
  open w use {State, clock, Value, marshal, parse_insecure}

  -- The row that CreateCharacter inserts.
  abbrev pub new_values : Profile → CharacterClaims → OauthToken → String → Time → CharacterValues
  new_values p claims token marshalled now = record {
    profile_ref = p.id;
    character_id = claims.character_id;
    character_name = claims.character_name;
    owner = claims.owner;
    refresh_token = token.refresh_token;
    scopes = claims.scopes;
    active = true;
    access_token = token.access_token;
    reference_data = some marshalled;
    created_at = now;
    updated_at = now;
  }

  unfoldable pub create_character :
      Profile → CharacterClaims → OauthToken → Option Value → Exec State Character
  create_character p claims token reference_data = do
    marshalled ← lift (marshal reference_data)
    now ← gets clock
    let values = new_values p claims token marshalled now
    id ← query_struct w (upsert_character values)
    pure (record { id = id; values = values })

  -- `Set` of the three Update methods: the given column and updated_at, in the object's row.
  abbrev update_row : Character → CharacterSet → Exec State Done
  update_row c set s =
      query_nil w
        (update_characters (set ∷ CharacterSet.updated_at (clock s) ∷ [])
          (CharacterCond.id_is c.id ∷ []))
        s

  -- The object keeps the new token also when the statement fails.
  unfoldable pub update_access_token : Character → String → State → Result Done × Character × State
  update_access_token c access_token s =
      let c' = record c { values = record c.values { access_token = access_token } } in
      let (reply, s') = update_row c' (CharacterSet.access_token c'.access_token) s in
      (reply, c', s')

  unfoldable pub update_refresh_token : Character → String → State → Result Done × Character × State
  update_refresh_token c refresh_token s =
      let c' = record c { values = record c.values { refresh_token = refresh_token } } in
      let (reply, s') = update_row c' (CharacterSet.refresh_token c'.refresh_token) s in
      (reply, c', s')

  -- The flag of the object is put back if the statement fails.
  unfoldable pub update_active_state : Character → Bool → State → Result Done × Character × State
  update_active_state c active s =
      let old = c.active in
      let c' = record c { values = record c.values { active = active } } in
      let (reply, s') = update_row c' (CharacterSet.active c'.active) s in
      elim reply [
        | ok _ ↦ (ok tt, c', s')
        | err e ↦ (err e, record c' { values = record c'.values { active = old } }, s')
      ]

  -- What Token makes of the stored columns: an unreadable access token is dropped, and without a
  -- readable `exp` the token counts as expired now.
  unfoldable pub stored_token : String → String → Time → OauthToken
  stored_token access_token refresh_token now =
      if ltb 1 (len access_token)
      then elim (parse_insecure access_token) [
        | err e ↦ record { access_token = ""; refresh_token = refresh_token; expiry = now }
        | ok (some exp) ↦ record {
          access_token = access_token;
          refresh_token = refresh_token;
          expiry = exp;
        }
        | ok none ↦ record {
          access_token = access_token;
          refresh_token = refresh_token;
          expiry = now;
        }
      ]
      else record { access_token = access_token; refresh_token = refresh_token; expiry = now }

  -- Character.Token reads the two tokens of the row into the object.
  unfoldable pub token : Character → State → Result OauthToken × Character × State
  unfolding stored_token
  token c s =
      let (reply, s') = query_struct w (select_tokens (CharacterCond.id_is c.id ∷ [])) s in
      elim reply [
        | err e ↦ (err e, c, s')
        | ok (access, refresh) ↦ (
          ok (stored_token access refresh (clock s')),
          record c { values = record c.values { access_token = access; refresh_token = refresh } },
          s',
        )
      ]

  -- Character.GetProfile
  unfoldable pub character_profile : Character → Exec State Profile
  character_profile c = get_profile w c.profile_ref

  -- Character.Delete
  unfoldable pub delete : Character → Exec State Done
  delete c = query_nil w (delete_characters (CharacterCond.id_is c.id ∷ []))
