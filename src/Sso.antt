-- ===== src/Sso.antt =====
-- The single sign-on side: config.go's appConfig, what the program asks of jwx, golang.org/x/oauth2 and
-- google/uuid, and validateAccessToken of token.go.
pub mod Verify
pub mod Memory
mod Tests
use evesso.Prelude.{◌*◌, ◌+◌, ◌<◌, ◌≤◌, ◌≡◌, Option, some, String, Bool, List, [], ◌∷◌, All, Any}
use evesso.Exec.{Error, Done, Result, ok, Exec, gets, lift, ◌>>=◌}
use evesso.Sql.{Uuid, Time, Strings}
use evesso.World.{World}
use evesso.Store.Base.{one_second, OauthToken}
use evesso.Claims.{Jwt, check_issuer, audience_name}

pub record AppConfig : Type 0 where
  pub key : String
  pub secret : String
  pub callback : String
  pub redirect : String
  pub dsn : String
  pub autocert : Bool
  pub autocert_cache : String
  pub tls_cert : String
  pub tls_key : String

-- The claims exp, nbf and iat, where they are there: not expired, and neither valid nor issued only later.
pub record IsTimely (now skew : Time) (t : Jwt) : Type 0 where
  pub unexpired : (e : Time) → t.expiration ≡ some e → now < e + skew
  pub begun : (e : Time) → t.not_before ≡ some e → e ≤ now + skew
  pub issued : (e : Time) → t.issued_at ≡ some e → e ≤ now + skew

-- The libraries reach the network, never the tables.
pub record Sso (w : World) : Type 1 where
  -- The field JwksURI of EVESSO, which the discovery document sets, and jwk.Cache.Lookup: the set of keys
  -- that the cache holds for a URI
  pub jwks_uri : String
  pub Keys : Type 0
  pub lookup : String → w.State → Result Keys × w.State
  pub lookup-tables : (uri : String) (s : w.State) → w.tables (lookup uri s).1 ≡ w.tables s
  -- jwt.ParseString with WithKeySet, WithValidator, WithAudience for each name given, and
  -- WithAcceptableSkew, at a time. A token that it accepts carries a signature by one of the keys over
  -- the claims that it returns, and has passed every one of these checks and that of its times.
  pub IsSigned : Keys → String → Jwt → Type 0
  pub parse : Time → Keys → (Jwt → Result Done) → List String → Time → String → Result Jwt
  pub parse-sound :
      (now : Time) (ks : Keys) (validate : Jwt → Result Done) (audiences : List String)
      (skew : Time) (text : String) (t : Jwt)
      → parse now ks validate audiences skew text ≡ ok t
      → IsSigned ks text t
        × IsTimely now skew t
        × (validate t ≡ ok tt)
        × All (λ a. Any (λ b. a ≡ b) t.audience) audiences
  -- oauth2.Config.Exchange, of a code and a code verifier
  pub exchange : String → String → w.State → Result OauthToken × w.State
  pub exchange-tables :
      (code verifier : String) (s : w.State) → w.tables (exchange code verifier s).1 ≡ w.tables s
  -- oauth2.Config.TokenSource(ctx, t).Token(): t itself while it is fresh, else the answer to its
  -- refresh token. `is_retrieve_error` is errors.As to a *oauth2.RetrieveError.
  pub refreshed : OauthToken → w.State → Result OauthToken × w.State
  pub refreshed-tables : (t : OauthToken) (s : w.State) → w.tables (refreshed t s).1 ≡ w.tables s
  pub is_retrieve_error : Error → Bool
  -- oauth2.Config.AuthCodeURL of the configured client, with offline access, of the scopes, a state, a
  -- code challenge and its method
  pub auth_code_url : AppConfig → Strings → Uuid → String → String → String
  -- uuid.Parse
  pub parse_uuid : String → Result Uuid

-- `30*time.Second`
abbrev pub acceptable_skew : Time
acceptable_skew = 30 * one_second

module _ (w : World) (sso : Sso w) where
  -- validateAccessToken; it reads the clock in jwt.ParseString.
  unfoldable pub validate_access_token : sso.Keys → String → String → Exec w.State Jwt
  validate_access_token ks client_id access_token = do
    now ← gets w.clock
    lift (
        sso.parse now ks check_issuer (audience_name ∷ client_id ∷ []) acceptable_skew access_token)
