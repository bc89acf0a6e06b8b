-- ===== src/TokenSource/FirstLogin.antt =====
-- A first authorization for a profile, from the callback to the token source.
use evesso.Prelude.{
  ◌+◌, ◌-◌, ◌≤◌, ◌<◌, ◌≡◌, ◌≢◌, refl, sym, ap, ◌∙◌, String, true, pos, All, Any, All-imp, All-both,
  All-Any, inl, ◌∷◌, some,
}
use evesso.Exec.{ok}
use evesso.Sql.{Strings, Profile, Character, Pkce}
use evesso.Sql.Schema.{IsConsistent, SameIdentity, RefersTo}
use evesso.World.{World}
use evesso.Store.Base.{five_minutes, CharacterClaims, OauthToken}
use evesso.Store.Profiles.Lookup.{Fits, IsGranted}
use evesso.Store.Pkces.{destroy, stored_value}
use evesso.Store.Characters.{new_values, stored_token}
use evesso.Store.Characters.Upsert.{create_character_new}
use evesso.Claims.{Jwt, new_character_claims}
use evesso.Sso.{Sso, AppConfig}
use evesso.Callback.{verify, serve_http}
use evesso.Callback.Identity.{clean_pkce-characters}
use evesso.Callback.Keeps.{serve_http-IsConsistent}
use evesso.Callback.Completes.{
  found_at, read_at, used_at, exchanged_at, verified_at, serve_http-Reaches,
}
use evesso.TokenSource.{token_source, load_token}
use evesso.TokenSource.Authorized.{after_profile, after_character, load_token_complete}

module _ (w : World) (sso : Sso w) (cfg : AppConfig) (code state : String) (s : w.State) (k : Pkce)
    (token : OauthToken) (jt : Jwt) (claims : CharacterClaims) (reference : String) where
  open w use {State, tables, clock, served, fresh, marshal}
  open sso use {exchange, parse_uuid}

  module _ (h : IsConsistent (tables s)) (parsed : parse_uuid state ≡ ok k.state)
      (there : Any (λ r. k ≡ r) (tables s).pkces) (young : clock s - five_minutes < k.created_at)
      (up_find : served s ≡ true)
      (up_read : served (found_at w sso cfg code state s k token) ≡ true)
      (used : (destroy w k (read_at w sso cfg code state s k token)).0 ≡ ok tt)
      (early : clock (used_at w sso cfg code state s k token) ≤ k.created_at + five_minutes)
      (exchanged : (exchange code k.code_verifier (used_at w sso cfg code state s k token)).0
        ≡ ok token)
      (verified : (verify w sso cfg token.access_token
          (exchanged_at w sso cfg code state s k token)).0
        ≡ ok jt)
      (read : new_character_claims jt ≡ ok claims)
      (readable : marshal (stored_value w k.reference_data) ≡ ok reference)
      (up_write : served (verified_at w sso cfg code state s k token) ≡ true) where
    abbrev v : State
    v = verified_at w sso cfg code state s k token

    abbrev login : State
    login = (serve_http w sso cfg code state s).1

    -- The row of the grant
    abbrev granted : Profile → Character
    granted p = record {
      id = (fresh v).0;
      values = new_values w p claims token reference (clock v);
    }

    pub serve_http-granted :
        All (λ c. c.profile_ref ≢ k.profile_ref) (tables s).characters
        → All (λ c. (fresh v).0 ≢ c.id) (tables s).characters
        → (p : Profile) × (p.id ≡ k.profile_ref)
          × ((tables login).characters ≡ granted p ∷ (tables s).characters)
    serve_http-granted first new =
        let (p, (id, known, kept, same, ran)) =
          serve_http-Reaches w sso cfg code state s k token jt claims reference h parsed there young
            up_find up_read used early exchanged verified read readable up_write in
        let unlike =
          All-both (λ c. c.profile_ref ≢ k.profile_ref) (λ c. (fresh v).0 ≢ c.id) _
            (λ c other free. (
              λ (i : SameIdentity (granted p).values c.values). other (sym i.profile_ref ∙ id),
              free,
            ))
            (tables s).characters first new in
        let (stored, after) =
          create_character_new w p claims token (stored_value w k.reference_data) reference v
            readable up_write (rw same unlike) known in
        (
          p,
          id,
          ap (λ (r : _). (tables r.1).characters) (ran (granted p) stored)
              ∙ clean_pkce-characters w sso cfg _
              ∙ ap (λ t. t.characters) after
              ∙ rw same refl,
        )

    -- Under the conditions under which ServeHTTP completes: if the profile of the PKCE row had no character
    -- yet, then a new token source for that profile, for the name in the token and for some of the scopes
    -- that it grants finds the character after the request, where the database serves the three reads, and
    -- holds that character and a token with the refresh token that the SSO issued, and with the access
    -- token that it issued unless that cannot be read.
    pub first_login_loads :
        All (λ c. c.profile_ref ≢ k.profile_ref) (tables s).characters
        → All (λ c. (fresh v).0 ≢ c.id) (tables s).characters
        → (scopes : Strings) → IsGranted claims.scopes scopes
        → served login ≡ true
        → served (after_profile w sso cfg k.profile_ref claims.character_name scopes login) ≡ true
        → served (after_character w sso cfg k.profile_ref claims.character_name scopes login) ≡ true
        → (c : Character) × (s' : State) × (c.character_id ≡ claims.character_id)
          × (c.owner ≡ claims.owner)
          × (load_token w sso cfg (token_source k.profile_ref claims.character_name scopes, login)
              ≡ (
                ok (stored_token w token.access_token token.refresh_token (clock s')),
                (
                  record (token_source k.profile_ref claims.character_name scopes) {
                    character = some c;
                    token = some (stored_token w token.access_token token.refresh_token (clock s'));
                  },
                  s',
                ),
              ))
    first_login_loads first new scopes granted_scopes up0 up1 up2 =
        let (p, id, rows) = serve_http-granted first new in
        let kept = serve_http-IsConsistent w sso cfg code state s h in
        let there : Any (λ d. granted p ≡ d) (tables login).characters = rw rows (inl refl) in
        let owned : RefersTo (granted p).profile_ref (tables login).profiles =
          All-Any (λ c. RefersTo c.profile_ref (tables login).profiles) (λ d. granted p ≡ d)
            (tables login).characters kept.character_refs there
            (λ d r e. rw (ap (λ (x : Character). x.profile_ref) e) r) in
        let known : RefersTo k.profile_ref (tables login).profiles = rw id at owned in
        let (s', loaded) =
          load_token_complete w sso cfg k.profile_ref claims.character_name scopes login (granted p)
            kept known there
            (λ q owner.
              let fits : Fits q (pos 0) claims.character_name "" scopes (granted p) = record {
                active = refl;
                profile = id ∙ sym owner;
                id_agrees = λ e. cc e;
                name_agrees = λ e. refl;
                owner_agrees = λ e. cc e;
                granted = granted_scopes;
              } in
              (
                fits,
                rw rows (
                  λ other. refl,
                  All-imp (λ c. c.profile_ref ≢ k.profile_ref) _
                      (λ c other f. absurd (other (f.profile ∙ owner))) (tables s).characters first,
                ),
              ))
            up0 up1 up2 in
        (granted p, s', refl, refl, loaded)
