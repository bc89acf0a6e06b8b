-- ===== src/TokenSource/LoginTests.antt =====
-- A first authorization in the world in memory, where nothing but a profile and a PKCE row is stored.
use evesso.Prelude.{◌≡◌, refl, inl, inr, arith, some, [], ◌∷◌, pos}
use evesso.Exec.{ok}
use evesso.Sql.{Character, Tables, run}
use evesso.Sql.Schema.{IsConsistent}
use evesso.World.Memory.{Server, memory}
use evesso.World.Samples.{rows, rows-IsConsistent, running, pending}
use evesso.Store.Base.{CharacterClaims}
use evesso.Store.Query.{query_nil, query_struct}
use evesso.Store.Profiles.{get_profile, find_character}
use evesso.Store.Pkces.{find_pkce, pkce_profile, destroy, clean_pkce, stored_value}
use evesso.Store.Characters.{create_character, stored_token}
use evesso.Claims.{new_character_claims, check_issuer, read_scopes, read_text, sorted}
use evesso.Claims.Sorting.{sort_strings, str_leb}
use evesso.Claims.Subject.{scan_character_id}
use evesso.Sso.{validate_access_token}
use evesso.Sso.Memory.{config, sign_on, carol, issued}
use evesso.Callback.{verify, serve_http}
use evesso.TokenSource.{token_source, load_token, get_character}
use evesso.TokenSource.FirstLogin.{first_login_loads}

abbrev empty : Tables
empty = record rows { characters = [] }

empty-IsConsistent : IsConsistent empty
empty-IsConsistent = record {
  profile_keys = rows-IsConsistent.profile_keys;
  pkce_keys = rows-IsConsistent.pkce_keys;
  character_keys = tt;
  pkce_refs = rows-IsConsistent.pkce_refs;
  character_refs = tt;
}

abbrev first_run : Server
first_run = record running { contents = empty }

abbrev carol_claims : CharacterClaims
carol_claims = record {
  character_id = pos 90000003;
  character_name = "Carol";
  owner = "owner";
  scopes = some ("mail" ∷ "skills" ∷ []);
}

first_login_loads_example :
    (c : Character) × (s' : Server) × (c.character_id ≡ pos 90000003)
    × (c.owner ≡ "owner")
    × (load_token memory sign_on config (
      token_source 1 "Carol" (some ("skills" ∷ [])),
      (serve_http memory sign_on config "code" "state" first_run).1,
    )
        ≡ (
          ok (stored_token memory "signed" "fresh" (memory.clock s')),
          (
            record (token_source 1 "Carol" (some ("skills" ∷ []))) {
              character = some c;
              token = some (stored_token memory "signed" "fresh" (memory.clock s'));
            },
            s',
          ),
        ))
unfolding find_pkce pkce_profile get_profile destroy clean_pkce stored_value query_nil query_struct
    run create_character verify validate_access_token new_character_claims check_issuer read_scopes
    read_text scan_character_id sorted sort_strings str_leb serve_http get_character find_character
first_login_loads_example =
    first_login_loads memory sign_on config "code" "state" first_run pending issued carol
      carol_claims "null" empty-IsConsistent refl (inl refl) (omega arith) refl refl refl
      (omega arith) refl refl refl refl refl tt tt (some ("skills" ∷ [])) (inr (inl refl), tt) refl
      refl refl
