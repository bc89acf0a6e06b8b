-- ===== src/Startup/Discovery.antt =====
-- autoconfig.go: EVESSO, AutoConfig and oAuth2. The `ctx` that is passed on everywhere is left out.
use Prim.Native.String.{◌++◌ as append}
use evesso.Prelude.{ℕ, ◌+◌, ◌-◌, ◌*◌, ◌≡◌, String, Option, none, some}
use evesso.Exec.{fault, Done, Result, ok, err, Exec, pure, lift, ◌>>=◌, map_ok}
use evesso.Sql.{Strings}
use evesso.Sso.{AppConfig}
use evesso.Startup.Config.{Files, load, empty_config}

-- The fields of EVESSO that the JSON document sets
pub record Metadata : Type 0 where
  pub issuer : String
  pub authorization_endpoint : String
  pub token_endpoint : String
  pub response_types_supported : Strings
  pub jwks_uri : String
  pub revocation_endpoint : String
  pub revocation_endpoint_auth_methods_supported : Strings
  pub token_endpoint_auth_methods_supported : Strings
  pub token_endpoint_auth_signing_alg_values_supported : Strings
  pub code_challenge_methods_supported : Strings

abbrev pub empty_metadata : Metadata
empty_metadata = record {
  issuer = "";
  authorization_endpoint = "";
  token_endpoint = "";
  response_types_supported = none;
  jwks_uri = "";
  revocation_endpoint = "";
  revocation_endpoint_auth_methods_supported = none;
  token_endpoint_auth_methods_supported = none;
  token_endpoint_auth_signing_alg_values_supported = none;
  code_challenge_methods_supported = none;
}

-- net/http, io.ReadAll, encoding/json, jwk.Cache, and the store's Setup. `unmarshal` is json.Unmarshal
-- into a pointer to the pointer `item`, which a document `null` sets to nil. `timed_client` is an
-- http.Client with a timeout in seconds.
pub record Network : Type 1 where
  pub State : Type 0
  pub resources : State → ℕ
  pub files : Files State resources
  pub Store : Type 0
  pub setup : Store → String → Exec State Done
  pub setup-resources :
      (x : Store) (dsn : String) (s : State) → resources (setup x dsn s).1 ≡ resources s
  pub Client : Type 0
  pub timed_client : ℕ → Client
  pub Request : Type 0
  pub new_request : String → Result Request
  pub Body : Type 0
  pub send : Client → Request → Exec State Body
  pub send-resources :
      (c : Client) (r : Request) (s : State)
      → resources (send c r s).1
        ≡ elim (send c r s).0 [ ok b ↦ resources s + 1 | err e ↦ resources s ]
  pub read_all : Body → Exec State String
  pub read_all-resources : (b : Body) (s : State) → resources (read_all b s).1 ≡ resources s
  pub close_body : Body → State → State
  pub close_body-resources : (b : Body) (s : State) → resources (close_body b s) ≡ resources s - 1
  pub unmarshal : String → Metadata → Result (Option Metadata)
  pub Cache : Type 0
  pub new_cache : Client → Exec State Cache
  pub new_cache-resources : (c : Client) (s : State) → resources (new_cache c s).1 ≡ resources s
  pub register : Cache → Client → ℕ → String → Exec State Done
  pub register-resources :
      (k : Cache) (c : Client) (interval : ℕ) (uri : String) (s : State)
      → resources (register k c interval uri s).1 ≡ resources s

-- `ISSUER`, `AUTOCONFIG_URL`, and String() of their path.Join with the scheme https
abbrev pub issuer_host : String
issuer_host = "login.eveonline.com"

abbrev pub autoconfig_url : String
autoconfig_url = "/.well-known/oauth-authorization-server"

abbrev pub discovery_url : String
discovery_url = append "https://" (append issuer_host autoconfig_url)

-- A deferred call, which runs however the rest ends.
abbrev pub deferred : {S A : Type 0} → (S → S) → Exec S A → Exec S A
deferred f m s = ((m s).0, f (m s).1)

module _ (n : Network) where
  open n use {
    State, resources, files, Store, setup, Client, timed_client, new_request, send, Body, read_all,
    close_body, unmarshal, Cache, new_cache, register,
  }

  pub record Evesso : Type 0 where
    pub metadata : Metadata
    pub refresher : Cache
    pub cfg : AppConfig
    pub client : Client
    pub store : Store

  abbrev pub client_of : Option Client → Client
  client_of none = timed_client (5 * 60)
  client_of (some c) = c

  abbrev pub load_config : String → Exec State AppConfig
  load_config path s =
      let (out, s') = load State resources files path empty_config s in
      (map_ok (λ d. out.1) out.0, s')

  -- `item.refresher, err = jwk.NewCache(…)` is a nil dereference once `item` is nil.
  unfoldable pub set_refresher : Option Metadata → Client → Exec State (Metadata × Cache)
  set_refresher none client s = (err fault, (new_cache client s).1)
  set_refresher (some m) client s =
      (map_ok (λ k. (m, k)) (new_cache client s).0, (new_cache client s).1)

  -- From io.ReadAll on
  unfoldable pub discover : AppConfig → Store → Client → Body → Exec State Evesso
  unfolding set_refresher
  discover cfg store client body = do
    text ← read_all body
    item ← lift (unmarshal text empty_metadata)
    set ← set_refresher item client
    _ ← register set.1 client (5 * 60) set.0.jwks_uri
    pure (record { metadata = set.0; refresher = set.1; cfg = cfg; client = client; store = store })

  -- AutoConfig. The status of the answer is not looked at.
  unfoldable pub auto_config : String → Store → Option Client → Exec State Evesso
  unfolding discover
  auto_config cfgpath store given = do
    cfg ← load_config cfgpath
    _ ← setup store cfg.dsn
    request ← lift (new_request discovery_url)
    body ← send (client_of given) request
    deferred (close_body body) (discover cfg store (client_of given) body)

  -- oauth2.Config with AuthStyleInParams
  pub record OauthConfig : Type 0 where
    pub client_id : String
    pub client_secret : String
    pub auth_url : String
    pub token_url : String
    pub redirect_url : String
    pub scopes : Strings

  -- EVESSO.oAuth2
  abbrev pub oauth2 : Evesso → Strings → OauthConfig
  oauth2 r scopes = record {
    client_id = r.cfg.key;
    client_secret = r.cfg.secret;
    auth_url = r.metadata.authorization_endpoint;
    token_url = r.metadata.token_endpoint;
    redirect_url = r.cfg.callback;
    scopes = scopes;
  }
