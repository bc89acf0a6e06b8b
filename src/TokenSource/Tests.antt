-- ===== src/TokenSource/Tests.antt =====
-- Runs of a token source in the world in memory, and its theorems at concrete sources.
use evesso.Prelude.{◌≡◌, ◌≢◌, ◌⊎◌, refl, eq_iff, String, false, none, some, [], ◌∷◌}
use evesso.Exec.{ok, err, remote, fault}
use evesso.Sql.{run}
use evesso.World.Memory.{Server, memory}
use evesso.World.Samples.{pilot, rows, running}
use evesso.Store.Base.{OauthToken}
use evesso.Store.Query.{query_nil, query_struct}
use evesso.Store.Profiles.{get_profile, find_character}
use evesso.Store.Characters.{
  create_character, token, update_access_token, update_refresh_token, update_active_state,
}
use evesso.Store.Characters.Tokens.{change, with_active}
use evesso.Claims.{new_character_claims, check_issuer, read_scopes, read_text}
use evesso.Claims.Subject.{scan_character_id}
use evesso.Sso.{validate_access_token}
use evesso.Sso.Memory.{config, sign_on, issued}
use evesso.TokenSource.{
  Source, token_source, get_token, load_token, read_token, save, require_character, get_character,
  on_character, validate, refresh_held, store_refresh_token, store_access_token,
}
use evesso.TokenSource.Refresh.{IsRefreshed, ready, get_token_sound, get_token_deactivates}
use evesso.TokenSource.Saving.{IsSaved, save_sound, save_then_token_faults}

program : Unit {0}
unfolding query_nil query_struct run get_profile find_character create_character token
    update_access_token update_refresh_token update_active_state new_character_claims check_issuer
    read_scopes read_text scan_character_id validate_access_token get_token load_token read_token
    save require_character get_character on_character validate refresh_held store_refresh_token
    store_access_token
program = tt

abbrev ada : Source
ada = token_source 1 "Ada" (some ("skills" ∷ []))

gets_issued : (get_token memory sign_on config (ada, running)).0 ≡ ok issued
unfolding program
gets_issued = refl

abbrev after_ada : Source × Server
after_ada = (get_token memory sign_on config (ada, running)).1

get_token_sound_example :
    (after_ada.0.token ≡ some issued)
    × (((load_token memory sign_on config (ada, running)).0 ≡ ok issued)
        ⊎ IsRefreshed memory sign_on config (ada, running) issued)
get_token_sound_example = get_token_sound memory sign_on config (ada, running) issued gets_issued

abbrev revoked : OauthToken
revoked = record { access_token = "old"; refresh_token = "revoked"; expiry = 0 }

get_token_deactivates_example :
    let (reply, (o', s')) =
      get_token memory sign_on config (ready memory sign_on config ada revoked pilot, running) in
    (reply ≡ err (remote 400))
    × (((o' ≡ ready memory sign_on config ada revoked (with_active false pilot))
          × (s'.contents ≡ change 10 (with_active false) 1060000000 rows))
        ⊎ ((o' ≡ ready memory sign_on config ada revoked pilot) × (s'.contents ≡ rows)))
get_token_deactivates_example =
    get_token_deactivates memory sign_on config ada running revoked pilot (remote 400) refl refl

abbrev granted : OauthToken
granted = record { access_token = "signed"; refresh_token = "first"; expiry = 0 }

saves : (save memory sign_on config granted none (ada, running)).0 ≡ ok tt
unfolding program
saves = refl

save_sound_example :
    let (o', s') = (save memory sign_on config granted none (ada, running)).1 in
    (o' ≡ record ada { token = some granted })
    × IsSaved memory sign_on config ada granted none running s'
save_sound_example = save_sound memory sign_on config ada running granted none saves

first_not_fresh : ◌≢◌ {A = String} "first" "fresh"
first_not_fresh e = cc ((eq_iff "first" "fresh").1 e)

save_then_token_faults_example :
    (get_token memory sign_on config (save memory sign_on config granted none (ada, running)).1).0
    ≡ err fault
save_then_token_faults_example =
    save_then_token_faults memory sign_on config ada running granted issued none refl saves refl
      first_not_fresh

abbrev stale : OauthToken
stale = record { access_token = "first"; refresh_token = "first"; expiry = 0 }
