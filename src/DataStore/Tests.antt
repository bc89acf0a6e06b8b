-- ===== src/DataStore/Tests.antt =====
-- The PostgreSQL store behind the interface, and the theorems of the interface at concrete stores.
use evesso.Prelude.{◌≡◌, refl, none, some, [], ◌∷◌, pos, str_eq, if◌then◌else◌}
use evesso.Exec.{fault, ok, err}
use evesso.World.Memory.{Server, memory}
use evesso.World.Samples.{running}
use evesso.Store.Characters.{create_character}
use evesso.Claims.{new_character_claims, check_issuer, read_scopes, read_text, sorted}
use evesso.Claims.Sorting.{sort_strings, str_leb}
use evesso.Claims.Subject.{scan_character_id}
use evesso.Sso.Memory.{config, sign_on, carol, issued}
use evesso.Callback.{serve_http}
use evesso.DataStore.{DataStore}
use evesso.DataStore.Evessopg.{pg_store}
use evesso.DataStore.Handler.{serve, store_token, serve-pg_store}
use evesso.DataStore.Verified.{Creation, AgreesOnVerified, creating, only_verified}

abbrev store : DataStore Server memory.Value
store = pg_store memory (λ dsn s. (ok tt, s))

serve-pg_store_example :
    serve memory sign_on config store "code" "state" running
    ≡ serve_http memory sign_on config "code" "state" running
serve-pg_store_example =
    serve-pg_store memory sign_on config (λ dsn s. (ok tt, s)) "code" "state" running

-- Stores Carol and nobody else.
abbrev only_carol : Creation memory sign_on config store
only_carol p claims t reference s =
    if str_eq claims.character_name "Carol"
    then create_character memory p claims t reference s
    else (err fault, s)

carol_read :
    new_character_claims carol
    ≡ ok (record {
      character_id = pos 90000003;
      character_name = "Carol";
      owner = "owner";
      scopes = some ("mail" ∷ "skills" ∷ []);
    })
unfolding new_character_claims check_issuer read_scopes read_text scan_character_id sorted
    sort_strings str_leb
carol_read = refl

only_carol-AgreesOnVerified : AgreesOnVerified memory sign_on config store only_carol
only_carol-AgreesOnVerified at t jt claims accepted read p reference s =
    let named : claims.character_name ≡ "Carol" = cc (carol_read, accepted.signed.1, read) in
    rw named refl

only_verified_example :
    (serve memory sign_on config store "code" "state" running
      ≡ serve memory sign_on config
          (creating memory sign_on config store only_carol)
          "code"
          "state"
          running)
    × (store_token memory sign_on config store 1 issued none running
        ≡ store_token memory sign_on config
            (creating memory sign_on config store only_carol)
            1
            issued
            none
            running)
only_verified_example =
    only_verified memory sign_on config store only_carol only_carol-AgreesOnVerified "code" "state"
      1 issued none running
