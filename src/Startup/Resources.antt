-- ===== src/Startup/Resources.antt =====
-- The files and response bodies that the start-up opens.
use evesso.Prelude.{
  ℕ, ◌*◌, ◌≡◌, refl, ◌∙◌, arith, inl, inr, String, Option, none, some, Option-cases,
}
use evesso.Exec.{pure, lift, ◌>>=◌, Result-cases}
use evesso.Sso.{AppConfig}
use evesso.Startup.Config.{Files, load, decoder_of, extension, read_config, empty_config}
use evesso.Startup.Discovery.{
  Network, Metadata, discovery_url, empty_metadata, client_of, load_config, set_refresher, discover,
  auto_config, deferred,
}

module _ (State : Type 0) (resources : State → ℕ) (files : Files State resources) where
  open files use {
    open_file, open_file-resources, close_file, close_file-resources, decode, decode-resources,
  }

  read_config-resources :
      (path : String) (h : files.Handle) (c : AppConfig) (s : State)
      → resources (read_config State resources files path h c s).1 ≡ resources s
  read_config-resources path h c s = elim (Option-cases (decoder_of (extension path))) [
    | inl e ↦ rw (read_config, e) refl
    | inr (d, e) ↦ rw (read_config, e) (decode-resources d h c s)
  ]

  -- What is opened once more and then closed
  pub load-resources :
      (path : String) (c : AppConfig) (s : State)
      → resources (load State resources files path c s).1 ≡ resources s
  unfolding load
  load-resources path c s =
      let opened = open_file-resources path s in
      let s' = (open_file path s).1 in
      elim (Result-cases (open_file path s).0) [
        | inr (x, e) ↦ rw (load, e) (rw e at opened)
        | inl (h, e) ↦
            let s'' = (read_config State resources files path h c s').1 in
            rw (load, e) omega
              (arith, close_file-resources h s'', read_config-resources path h c s', rw e at opened)
      ]

module _ (n : Network) where
  open n use {
    State, resources, files, Store, setup, setup-resources, Client, new_request, send,
    send-resources, Body, read_all, read_all-resources, close_body, close_body-resources, unmarshal,
    new_cache, new_cache-resources, register, register-resources,
  }

  set_refresher-resources :
      (item : Option Metadata) (c : Client) (s : State)
      → resources (set_refresher n item c s).1 ≡ resources s
  unfolding set_refresher
  set_refresher-resources none c s = new_cache-resources c s
  set_refresher-resources (some m) c s = new_cache-resources c s

  discover-resources :
      (cfg : AppConfig) (store : Store) (c : Client) (b : Body) (s : State)
      → resources (discover n cfg store c b s).1 ≡ resources s
  unfolding discover
  discover-resources cfg store c b s =
      let s1 = (read_all b s).1 in
      elim (Result-cases (read_all b s).0) [
        | inr (x, e) ↦ rw (discover, ◌>>=◌, e) (read_all-resources b s)
        | inl (text, e) ↦ elim (Result-cases (unmarshal text empty_metadata)) [
          | inr (x, f) ↦ rw (discover, ◌>>=◌, e, lift, f) (read_all-resources b s)
          | inl (item, f) ↦
              let s2 = (set_refresher n item c s1).1 in
              elim (Result-cases (set_refresher n item c s1).0) [
                | inr (x, g) ↦
                    rw (discover, ◌>>=◌, e, lift, f, g)
                      (set_refresher-resources item c s1 ∙ read_all-resources b s)
                | inl (m, g) ↦
                    let registered = register-resources m.1 c (5 * 60) m.0.jwks_uri s2 in
                    let kept =
                      registered ∙ set_refresher-resources item c s1 ∙ read_all-resources b s in
                    elim (Result-cases (register m.1 c (5 * 60) m.0.jwks_uri s2).0) [
                      | inr (x, k) ↦ rw (discover, ◌>>=◌, e, lift, f, g, k) kept
                      | inl (d, k) ↦ rw (discover, ◌>>=◌, e, lift, f, g, k, pure) kept
                    ]
              ]
        ]
      ]

  answered :
      (cfg : AppConfig) (store : Store) (c : Client) (r : n.Request) (s s2 : State)
      → resources s2 ≡ resources s
      → resources ((send c r >>= λ b. deferred (close_body b) (discover n cfg store c b)) s2).1
        ≡ resources s
  answered cfg store c r s s2 ready =
      let sent = send-resources c r s2 in
      let s3 = (send c r s2).1 in
      elim (Result-cases (send c r s2).0) [
        | inr (x, e) ↦ rw (◌>>=◌, e) ((rw e at sent) ∙ ready)
        | inl (b, e) ↦
            rw (◌>>=◌, e, deferred) omega
              (
                arith,
                close_body-resources b (discover n cfg store c b s3).1,
                discover-resources cfg store c b s3,
                rw e at sent,
                ready,
              )
      ]

  -- Whatever AutoConfig returns, and also where it panics, as many files and response bodies are open
  -- afterwards as before: the configuration file and the answer are closed on every path.
  pub auto_config-resources :
      (path : String) (store : Store) (given : Option Client) (s : State)
      → resources (auto_config n path store given s).1 ≡ resources s
  unfolding auto_config
  auto_config-resources path store given s =
      let s1 = (load_config n path s).1 in
      let loaded = load-resources State resources files path empty_config s in
      elim (Result-cases (load_config n path s).0) [
        | inr (x, e) ↦ rw (auto_config, ◌>>=◌, e) loaded
        | inl (cfg, e) ↦
            let s2 = (setup store cfg.dsn s1).1 in
            let ready = setup-resources store cfg.dsn s1 ∙ loaded in
            elim (Result-cases (setup store cfg.dsn s1).0) [
              | inr (x, f) ↦ rw (auto_config, ◌>>=◌, e, f) ready
              | inl (d, f) ↦ elim (Result-cases (new_request discovery_url)) [
                | inr (x, g) ↦ rw (auto_config, ◌>>=◌, e, f, lift, g) ready
                | inl (r, g) ↦
                    rw (auto_config, ◌>>=◌, e, f, lift, g)
                      (answered cfg store (client_of n given) r s s2 ready)
              ]
            ]
      ]
