-- ===== src/Callback/Requests/History.antt =====
-- What a request to ServeHTTP has behind it, by the calls that it has made in states that occurred.
use evesso.Prelude.{◌+◌, ◌≡◌, ◌<◌, ◌≤◌, String, Any}
use evesso.Exec.{ok}
use evesso.Sql.{Pkce}
use evesso.World.{World}
use evesso.Store.Base.{five_minutes, OauthToken}
use evesso.Store.Pkces.{destroy}
use evesso.Claims.{Jwt, new_character_claims}
use evesso.Sso.{Sso, AppConfig}
use evesso.Sso.Verify.{IsAccepted}
use evesso.Callback.Requests.{Phase}

module _ (w : World) (sso : Sso w) (cfg : AppConfig) (Occurs : w.State → Type 0) where
  open w use {State, tables, clock}
  open sso use {exchange, parse_uuid}

  -- The PKCE was stored under the state of the request, and young.
  pub record IsFound (state : String) (k : Pkce) : Type 0 where
    pub at : State
    pub occurs : Occurs at
    pub parsed : parse_uuid state ≡ ok k.state
    pub there : Any (λ r. k ≡ r) (tables at).pkces
    pub young : clock at < k.created_at + five_minutes

  -- It was deleted after that.
  pub record IsUsed (state : String) (k : Pkce) : Type 0 where
    pub is_found : IsFound state k
    pub at : State
    pub occurs : Occurs at
    pub used : (destroy w k at).0 ≡ ok tt

  -- It was still young then.
  pub record IsYoung (state : String) (k : Pkce) : Type 0 where
    pub is_used : IsUsed state k
    pub at : State
    pub occurs : Occurs at
    pub young : clock at ≤ k.created_at + five_minutes

  -- The token endpoint answered the token to the code of the request and the verifier of the PKCE.
  pub record IsExchanged (code state : String) (k : Pkce) (token : OauthToken) : Type 0 where
    pub is_young : IsYoung state k
    pub at : State
    pub occurs : Occurs at
    pub exchanged : (exchange code k.code_verifier at).0 ≡ ok token

  -- The access token passed the checks of validateAccessToken.
  pub record IsChecked (code state : String) (k : Pkce) (token : OauthToken) (jt : Jwt)
      : Type 0 where
    pub is_exchanged : IsExchanged code state k token
    pub at : State
    pub occurs : Occurs at
    pub accepted : IsAccepted w sso at cfg.key token.access_token jt

  abbrev pub Knows : String → String → Phase → Type 0
  Knows code state (Phase.finding id) = parse_uuid state ≡ ok id
  Knows code state (Phase.reading k) = IsFound state k
  Knows code state (Phase.destroying k p) = IsFound state k × (p.id ≡ k.profile_ref)
  Knows code state (Phase.timing k p) = IsUsed state k × (p.id ≡ k.profile_ref)
  Knows code state (Phase.exchanging k p) = IsYoung state k × (p.id ≡ k.profile_ref)
  Knows code state (Phase.verifying k p token) =
      IsExchanged code state k token × (p.id ≡ k.profile_ref)
  Knows code state (Phase.claiming k p token jt) =
      IsChecked code state k token jt × (p.id ≡ k.profile_ref)
  Knows code state (Phase.creating k p token claims) =
      (jt : Jwt) × IsChecked code state k token jt
      × (p.id ≡ k.profile_ref)
      × (new_character_claims jt ≡ ok claims)
  Knows code state _ = Unit
