-- ===== src/TokenSource.antt =====
-- token.go: ssoTokenSource; and the three methods of EVESSO in autoconfig.go that make sources and
-- authorization URLs. The lock is held for a whole method, so a method is one step.
pub mod Refresh
pub mod Saving
pub mod Rotation
pub mod Authorized
pub mod FirstLogin
mod Tests
mod LoginTests
use Prim.Native.String.{◌++◌ as append}
use evesso.Prelude.{
  String, Bool, true, false, Option, none, some, List, if◌then◌else◌, str_eq, ℤ, pos,
}
use evesso.Exec.{Error, Done, fault, Result, ok, err, Exec, pure, raise, lift, gets, ◌>>=◌, ◌>>◌}
use evesso.Sql.{Uuid, Strings, Profile, Character, Pkce}
use evesso.World.{World}
use evesso.Store.Base.{OauthToken}
use evesso.Store.Profiles.{get_profile, find_character}
use evesso.Store.Pkces.{create_pkce}
use evesso.Store.Characters.{
  create_character, token, update_access_token, update_refresh_token, update_active_state,
}
use evesso.Claims.{Jwt, new_character_claims}
use evesso.Sso.{Sso, AppConfig, validate_access_token}

-- The fields that change or that the methods read; `scopes` are those of oauthConfig.
pub record Source : Type 0 where
  pub token : Option OauthToken
  pub character : Option Character
  pub profile_id : Uuid
  pub character_name : String
  pub scopes : Strings

-- EVESSO.TokenSource
abbrev pub token_source : Uuid → String → Strings → Source
token_source profile_id character_name scopes = record {
  token = none;
  character = none;
  profile_id = profile_id;
  character_name = character_name;
  scopes = scopes;
}

-- EVESSO.CharacterSource
abbrev pub character_source : Character → Source
character_source character = record {
  token = none;
  character = some character;
  profile_id = character.profile_ref;
  character_name = character.character_name;
  scopes = character.scopes;
}

module _ (w : World) (sso : Sso w) (cfg : AppConfig) where
  open w use {State, Value}
  open sso use {jwks_uri, lookup, refreshed, is_retrieve_error, auth_code_url}

  -- A method runs against the source and the world.
  abbrev pub Run : Type 0
  Run = Source × State

  abbrev pub in_world : {A : Type 0} → Exec State A → Exec Run A
  in_world m (o, s) = ((m s).0, (o, (m s).1))

  -- A method of `o.character`, which is a fault where that is nil.
  unfoldable pub on_character :
      {A : Type 0} → (Character → State → Result A × Character × State) → Exec Run A
  on_character m (o, s) = elim o.character [
    | none ↦ (err fault, (o, s))
    | some c ↦ let (r, c', s') = m c s in (r, (record o { character = some c' }, s'))
  ]

  abbrev set_character : Character → Exec Run Done
  set_character c (o, s) = (ok tt, (record o { character = some c }, s))

  abbrev pub set_token : OauthToken → Exec Run Done
  set_token t (o, s) = (ok tt, (record o { token = some t }, s))

  unfoldable pub get_character : Exec Run Character
  get_character (o, s) =
      in_world
        (do
          profile ← get_profile w o.profile_id
          find_character w profile (pos 0) o.character_name "" o.scopes)
        (o, s)

  unfoldable pub validate : OauthToken → Exec State Jwt
  validate t = do ks ← lookup jwks_uri; validate_access_token w sso ks cfg.key t.access_token

  -- `if o.character == nil { … }`
  unfoldable pub require_character : Exec Run Done
  unfolding get_character
  require_character (o, s) = elim o.character [
    | some c ↦ (ok tt, (o, s))
    | none ↦ (do character ← get_character; set_character character) (o, s)
  ]

  -- The body of `if o.token == nil { … }`
  unfoldable pub read_token : Exec Run OauthToken
  unfolding require_character on_character
  read_token = do
    _ ← require_character
    loaded ← on_character (token w)
    _ ← set_token loaded
    pure loaded

  -- That `if`, and the token that is then held
  unfoldable pub load_token : Exec Run OauthToken
  unfolding read_token
  load_token (o, s) = elim o.token [ some held ↦ (ok held, (o, s)) | none ↦ read_token (o, s) ]

  -- The call of oauth2, and the character marked inactive if the server refused the refresh token.
  -- Where that fails too its error is only put in front of the first.
  unfoldable pub refresh_held : OauthToken → Exec Run OauthToken
  refresh_held held (o, s) =
      let (r, s') = refreshed held s in
      elim r [
        | ok l ↦ (ok l, (o, s'))
        | err e ↦
            if is_retrieve_error e
            then elim o.character [
              | none ↦ (err fault, (o, s'))
              | some c ↦
                  let (_, c', s'') = update_active_state w c false s' in
                  (err e, (record o { character = some c' }, s''))
            ]
            else (err e, (o, s'))
      ]

  -- `if o.token.RefreshToken != l.RefreshToken { … }`
  unfoldable pub store_refresh_token : OauthToken → OauthToken → Exec Run Done
  store_refresh_token held l =
      if str_eq held.refresh_token l.refresh_token
      then pure tt
      else on_character (λ c. update_refresh_token w c l.refresh_token)

  -- `if o.token.AccessToken != l.AccessToken { … }; return o.token, nil`
  unfoldable pub store_access_token : OauthToken → OauthToken → Exec Run OauthToken
  unfolding validate
  store_access_token held l = if str_eq held.access_token l.access_token then pure held else do
    _ ← in_world (validate l)
    _ ← on_character (λ c. update_access_token w c l.access_token)
    _ ← set_token l
    pure l

  -- ssoTokenSource.Token
  unfoldable pub get_token : Exec Run OauthToken
  unfolding load_token refresh_held store_refresh_token store_access_token
  get_token = do
    held ← load_token
    l ← refresh_held held
    _ ← store_refresh_token held l
    store_access_token held l

  -- ssoTokenSource.Valid
  unfoldable pub valid : Exec Run Bool
  valid r = elim (get_token r).0 [
    | ok _ ↦ (ok true, (get_token r).1)
    | err fault ↦ (err fault, (get_token r).1)
    | err e ↦ (ok false, (get_token r).1)
  ]

  -- ssoTokenSource.Save
  unfoldable pub save : OauthToken → Option Value → Exec Run Done
  save t reference_data (o, s) =
      (do
        jt ← in_world (validate t)
        claims ← lift (new_character_claims jt)
        profile ← in_world (get_profile w o.profile_id)
        _ ← in_world (create_character w profile claims t reference_data)
        set_token t)
        (o, s)

  -- EVESSO.AuthUrl
  abbrev pub auth_url_of : Pkce → String
  auth_url_of k = auth_code_url cfg k.scopes k.state k.code_challange k.code_challange_method

  -- ssoTokenSource.AuthURL
  unfoldable pub auth_url : Option Value → Exec Run String
  auth_url reference_data (o, s) =
      in_world
        (do
          profile ← get_profile w o.profile_id
          pkce ← create_pkce w profile reference_data o.scopes
          pure (
              auth_code_url cfg o.scopes pkce.state pkce.code_challange pkce.code_challange_method))
        (o, s)

  -- ssoTokenSource.RequestEditor: the Authorization header that it sets
  unfoldable pub request_editor : Exec Run String
  request_editor = do t ← get_token; pure (append "Bearer " t.access_token)
