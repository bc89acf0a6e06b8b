-- ===== src/DataStore/Handler.antt =====
-- autoconfig.go, ServeHTTP, and token.go, Save, over any DataStore: the same calls, through the interface.
use evesso.Prelude.{◌-◌, ◌≡◌, refl, String, Option, ltb, if◌then◌else◌}
use evesso.Exec.{Done, Exec, lift, ◌>>=◌}
use evesso.Sql.{Uuid}
use evesso.World.{World}
use evesso.Store.Base.{five_minutes, OauthToken}
use evesso.Claims.{new_character_claims}
use evesso.Sso.{Sso, AppConfig}
use evesso.Callback.{Response, attempt, verify, serve_http}
use evesso.DataStore.{DataStore}
use evesso.DataStore.Evessopg.{pg_store}

module _ (w : World) (sso : Sso w) (cfg : AppConfig) (d : DataStore w.State w.Value) where
  open w use {State, Value, clock}
  open sso use {exchange, parse_uuid}

  unfoldable pub serve : String → String → State → Response × State
  serve code state s =
      attempt (λ e. Response.discarded) (parse_uuid state, s)
        λ state_id s0.
          attempt (λ e. Response.discarded) (d.find_pkce state_id s0)
            λ pkce s1.
              attempt (λ e. Response.discarded) (d.pkce.get_profile pkce s1)
                λ profile s2.
                  attempt (λ e. Response.discarded) (d.pkce.destroy pkce s2)
                    λ done s3.
                      if ltb five_minutes (clock s3 - d.pkce.time pkce)
                      then (Response.said "authentication timeout, please try again", s3)
                      else attempt Response.encoded_error
                          (exchange code (d.pkce.get_code_verifier pkce) s3)
                          λ token s4.
                            attempt Response.encoded_error (verify w sso cfg token.access_token s4)
                              λ jt s5.
                                attempt Response.encoded_error (new_character_claims jt, s5)
                                  λ claims s6.
                                    attempt Response.encoded_error
                                      (d.profile.create_character profile claims token
                                        (d.pkce.get_reference_data pkce) s6)
                                      λ c s7.
                                        (Response.redirected cfg.redirect, (d.clean_pkce s7).1)

  -- Save up to `o.token = token`, of a source for the profile
  unfoldable pub store_token : Uuid → OauthToken → Option Value → Exec State d.Character
  store_token profile_id t reference_data = do
    jt ← verify w sso cfg t.access_token
    claims ← lift (new_character_claims jt)
    profile ← d.get_profile profile_id
    d.profile.create_character profile claims t reference_data

module _ (w : World) (sso : Sso w) (cfg : AppConfig) where
  -- Over the PostgreSQL store, whatever its Setup does, this is ServeHTTP as it is modelled: it uses the
  -- store through the interface only.
  pub serve-pg_store :
      (setup : String → Exec w.State Done) (code state : String) (s : w.State)
      → serve w sso cfg (pg_store w setup) code state s ≡ serve_http w sso cfg code state s
  unfolding serve serve_http
  serve-pg_store setup code state s = refl
