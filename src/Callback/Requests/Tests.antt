-- ===== src/Callback/Requests/Tests.antt =====
-- Two requests with the same state in the world in memory, one call of each in turn.
use evesso.Prelude.{ℕ, ◌≡◌, refl, String, List, [], ◌∷◌, map}
use evesso.Sql.{run}
use evesso.World.Memory.{Server, memory}
use evesso.World.Samples.{running}
use evesso.Store.Query.{query_nil, query_struct}
use evesso.Store.Profiles.{get_profile}
use evesso.Store.Pkces.{find_pkce, pkce_profile, destroy, clean_pkce, stored_value}
use evesso.Store.Characters.{create_character}
use evesso.Claims.{new_character_claims, check_issuer, read_scopes, read_text, sorted}
use evesso.Claims.Sorting.{sort_strings, str_leb}
use evesso.Claims.Subject.{scan_character_id}
use evesso.Sso.{validate_access_token}
use evesso.Sso.Memory.{config, sign_on}
use evesso.Callback.{Response, verify}
use evesso.Callback.Requests.{Phase, Request, started, advance, interleaved}

abbrev asked : List (String × String)
asked = ("code", "state") ∷ ("other", "state") ∷ []

abbrev turns : List ℕ
turns = 0 ∷ 1 ∷ 0 ∷ 1 ∷ 0 ∷ 1 ∷ 0 ∷ 1 ∷ 0 ∷ 1 ∷ 0 ∷ 1 ∷ 0 ∷ 1 ∷ 0 ∷ 1 ∷ 0 ∷ 1 ∷ 0 ∷ 1 ∷ []

abbrev both : List Request × Server
both = interleaved memory sign_on config turns (map started asked, running)

-- Each finds the PKCE before the other has deleted it, and to delete a row that is gone is no error: the
-- state is used twice.
both_redirected :
    map (λ (q : Request). q.phase) both.0
    ≡ Phase.answered (Response.redirected "http://localhost/")
      ∷ Phase.answered (Response.redirected "http://localhost/")
      ∷ []
unfolding advance find_pkce pkce_profile get_profile destroy clean_pkce stored_value query_nil
    query_struct run create_character verify validate_access_token new_character_claims check_issuer
    read_scopes read_text scan_character_id sorted sort_strings str_leb
both_redirected = refl
