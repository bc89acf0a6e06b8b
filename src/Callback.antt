-- ===== src/Callback.antt =====
-- autoconfig.go: verify, ServeHTTP, and the request handler of LocalhostAuth.
pub mod Identity
pub mod Replay
pub mod Keeps
pub mod Agreement
pub mod Completes
pub mod Requests
mod Tests
use evesso.Prelude.{◌-◌, ◌≡◌, refl, String, Bool, true, false, ltb, if◌then◌else◌}
use evesso.Exec.{Error, Result, ok, err, Exec, lift, ◌>>=◌}
use evesso.World.{World}
use evesso.Store.Base.{five_minutes}
use evesso.Store.Pkces.{find_pkce, pkce_profile, destroy, clean_pkce, stored_value}
use evesso.Store.Characters.{create_character}
use evesso.Claims.{Jwt, new_character_claims}
use evesso.Sso.{Sso, AppConfig, validate_access_token}

-- What is written to the browser. `discarded` writes nothing.
pub data Response : Type 0 where
  discarded : Response
  said : String → Response
  encoded_error : Error → Response
  redirected : String → Response
  http_error : Error → Response
  http_text : String → Response
  encoded_token : Jwt → Response

-- `v, err := m; if err != nil { answer err; return }`
abbrev pub attempt :
    {S A : Type 0} → (Error → Response) → Result A × S → (A → S → Response × S) → Response × S
attempt answer (ok a, s) k = k a s
attempt answer (err e, s) k = (answer e, s)

-- To prove something of an attempt: for its error, and for what goes on after a value.
pub attempt-elim :
    {S A : Type 0} (P : Response × S → Type 0) (answer : Error → Response) (r : Result A × S)
    (k : A → S → Response × S)
    → ((e : Error) → r.0 ≡ err e → P (answer e, r.1))
    → ((a : A) → r.0 ≡ ok a → P (k a r.1))
    → P (attempt answer r k)
attempt-elim P answer (ok a, s) k failed went = went a refl
attempt-elim P answer (err e, s) k failed went = failed e refl

pub if-elim :
    {A : Type 0} (P : A → Type 0) (b : Bool) (x y : A)
    → (b ≡ true → P x)
    → (b ≡ false → P y)
    → P (if b then x else y)
if-elim P true x y f g = f refl
if-elim P false x y f g = g refl

module _ (w : World) (sso : Sso w) (cfg : AppConfig) where
  open w use {State, clock}
  open sso use {jwks_uri, lookup, exchange, parse_uuid}

  -- EVESSO.verify
  unfoldable pub verify : String → Exec State Jwt
  verify access_token = do ks ← lookup jwks_uri; validate_access_token w sso ks cfg.key access_token

  -- EVESSO.ServeHTTP, of the form values `code` and `state`
  unfoldable pub serve_http : String → String → State → Response × State
  serve_http code state s =
      attempt (λ e. Response.discarded) (parse_uuid state, s)
        λ state_id s0.
          attempt (λ e. Response.discarded) (find_pkce w state_id s0)
            λ pkce s1.
              attempt (λ e. Response.discarded) (pkce_profile w pkce s1)
                λ profile s2.
                  attempt (λ e. Response.discarded) (destroy w pkce s2)
                    λ done s3.
                      if ltb five_minutes (clock s3 - pkce.created_at)
                      then (Response.said "authentication timeout, please try again", s3)
                      else attempt Response.encoded_error (exchange code pkce.code_verifier s3)
                          λ token s4.
                            attempt Response.encoded_error (verify token.access_token s4) λ jt s5.
                              attempt Response.encoded_error (new_character_claims jt, s5)
                                λ claims s6.
                                  attempt Response.encoded_error
                                    (create_character w profile claims token
                                      (stored_value w pkce.reference_data) s6)
                                    λ c s7. (Response.redirected cfg.redirect, (clean_pkce w s7).1)

  -- The handler that LocalhostAuth serves at the path of the callback
  unfoldable pub handle_localhost : String → String → State → Response × State
  handle_localhost code state s =
      attempt Response.http_error (parse_uuid state, s)
        λ state_id s0. attempt Response.http_error (find_pkce w state_id s0) λ pkce s1.
          attempt Response.http_error (pkce_profile w pkce s1) λ profile s2.
            attempt Response.http_error (destroy w pkce s2) λ done s3.
              if ltb five_minutes (clock s3 - pkce.created_at)
              then (Response.http_text "timeout ", s3)
              else attempt Response.http_error (exchange code pkce.code_verifier s3) λ token s4.
                attempt Response.http_error (verify token.access_token s4) λ jt s5.
                  attempt Response.http_error (new_character_claims jt, s5)
                    λ claims s6.
                      attempt Response.http_error
                        (create_character w profile claims token
                          (stored_value w pkce.reference_data) s6)
                        λ c s7. (Response.encoded_token jt, (clean_pkce w s7).1)
