-- ===== src/Callback/Tests.antt =====
-- Runs of the callback in the world in memory, and its theorems at concrete requests.
use evesso.Prelude.{◌≡◌, ◌≢◌, ◌⊎◌, refl, inl, arith, Any, [], ◌∷◌, some, pos}
use evesso.Sql.{run}
use evesso.World.Memory.{Server, memory}
use evesso.World.Samples.{rows, rows-IsConsistent, running, pending}
use evesso.Store.Query.{query_nil, query_struct}
use evesso.Store.Profiles.{get_profile}
use evesso.Store.Pkces.{find_pkce, pkce_profile, destroy, clean_pkce, stored_value}
use evesso.Store.Characters.{create_character}
use evesso.Claims.{new_character_claims, check_issuer, read_scopes, read_text, sorted}
use evesso.Claims.Sorting.{sort_strings, str_leb}
use evesso.Claims.Subject.{scan_character_id}
use evesso.Sso.{validate_access_token}
use evesso.Sso.Memory.{config, sign_on, carol, issued}
use evesso.Callback.{Response, verify, serve_http}
use evesso.Callback.Identity.{IsAuthorized, serve_http_characters}
use evesso.Callback.Replay.{replay_discarded}
use evesso.Store.Base.{CharacterClaims}
use evesso.Callback.Completes.{serve_http_completes}

abbrev served : Response × Server
served = serve_http memory sign_on config "code" "state" running

serve_http_characters_example :
    (served.1.contents.characters ≡ rows.characters)
    ⊎ IsAuthorized memory sign_on config "code" "state" running served.1.contents.characters
serve_http_characters_example = serve_http_characters memory sign_on config "code" "state" running

redirects : served.0 ≡ Response.redirected "http://localhost/"
unfolding serve_http find_pkce pkce_profile get_profile destroy clean_pkce stored_value query_nil
    query_struct run create_character verify validate_access_token new_character_claims check_issuer
    read_scopes read_text scan_character_id
redirects = refl

answered : served.0 ≢ Response.discarded
answered e = cc (redirects, e)

replay_discarded_example :
    ((serve_http memory sign_on config "other" "state" served.1).0 ≡ Response.discarded)
    × ((serve_http memory sign_on config "other" "state" served.1).1.contents ≡ served.1.contents)
replay_discarded_example =
    replay_discarded memory sign_on config "code" "state" running served.1 "other" rows-IsConsistent
      answered refl

abbrev carol_claims : CharacterClaims
carol_claims = record {
  character_id = pos 90000003;
  character_name = "Carol";
  owner = "owner";
  scopes = some ("mail" ∷ "skills" ∷ []);
}

serve_http_completes_example :
    let (response, s') = serve_http memory sign_on config "code" "state" running in
    (response ≡ Response.redirected "http://localhost/")
    × Any
        (λ c.
          (c.profile_ref ≡ 1)
          × (c.character_id ≡ carol_claims.character_id)
          × (c.character_name ≡ carol_claims.character_name)
          × (c.owner ≡ carol_claims.owner)
          × (c.scopes ≡ carol_claims.scopes)
          × (c.refresh_token ≡ issued.refresh_token))
        s'.contents.characters
unfolding find_pkce pkce_profile get_profile destroy clean_pkce stored_value query_nil query_struct
    run create_character verify validate_access_token new_character_claims check_issuer read_scopes
    read_text scan_character_id sorted sort_strings str_leb
serve_http_completes_example =
    serve_http_completes memory sign_on config "code" "state" running pending issued carol
      carol_claims "null" rows-IsConsistent refl (inl refl) (omega arith) refl refl refl
      (omega arith) refl refl refl refl refl
      ((λ e. omega (arith, e)), ((λ e. omega (arith, e)), ((λ e. omega (arith, e)), tt)))
