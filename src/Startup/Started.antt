-- ===== src/Startup/Started.antt =====
-- What holds of the EVESSO that AutoConfig returns.
use mathlib.Core.Path.{subst}
use evesso.Prelude.{ℕ, ◌*◌, ◌≡◌, refl, ap, ◌∙◌, inl, inr, String, Option, none, some, Option-cases}
use evesso.Exec.{Done, Result, ok, err, pure, lift, ◌>>=◌, Result-cases, map_ok}
use evesso.Sso.{AppConfig}
use evesso.Startup.Config.{Files, Decoder, load, decoder_of, extension, read_config, empty_config}
use evesso.Startup.Discovery.{
  Network, Metadata, Evesso, discovery_url, empty_metadata, client_of, load_config, set_refresher,
  discover, auto_config, deferred,
}

module _ (State : Type 0) (resources : State → ℕ) (files : Files State resources) where
  open files use {Handle, open_file, close_file, decode}

  -- The file was opened, and one of the two decoders, chosen by the extension, made `after` of `before`.
  pub record IsDecoded (path : String) (before after : AppConfig) (s : State) : Type 0 where
    pub handle : Handle
    pub decoder : Decoder
    pub was_opened : (open_file path s).0 ≡ ok handle
    pub was_chosen : decoder_of (extension path) ≡ some decoder
    pub was_decoded : (decode decoder handle before (open_file path s).1).0 ≡ (ok tt, after)

  pub load-IsDecoded :
      (path : String) (c : AppConfig) (s : State) (after : AppConfig)
      → (load State resources files path c s).0 ≡ (ok tt, after)
      → IsDecoded path c after s
  unfolding load
  load-IsDecoded path c s after h = elim (Result-cases (open_file path s).0) [
    | inr (x, e) ↦ cc (rw (load, e) at h)
    | inl (handle, e) ↦ elim (Option-cases (decoder_of (extension path))) [
      | inl f ↦ cc (rw (load, e, read_config, f) at h)
      | inr (d, f) ↦ record {
        handle = handle;
        decoder = d;
        was_opened = e;
        was_chosen = f;
        was_decoded = rw (load, e, read_config, f) at h;
      }
    ]
  ]

read_into :
    (out : Result Done × AppConfig) (cfg : AppConfig)
    → map_ok (λ d. out.1) out.0 ≡ ok cfg
    → out ≡ (ok tt, cfg)
read_into (ok d, c) cfg h = let same : c ≡ cfg = cc h in rw same refl
read_into (err e, c) cfg h = cc h

module _ (n : Network) where
  open n use {
    State, resources, files, Store, setup, Client, Request, new_request, send, Body, read_all,
    unmarshal, Cache, new_cache, register,
  }

  -- The answer to the request for the discovery document was read and parsed, and the URI of the keys that
  -- it names was registered, with the client, in a new cache.
  pub record IsDiscovered (c : Client) (s : State) (m : Metadata) (k : Cache) : Type 0 where
    pub request : Request
    pub requested : new_request discovery_url ≡ ok request
    pub body : Body
    pub answered : (send c request s).0 ≡ ok body
    pub document : String
    pub was_read : (read_all body (send c request s).1).0 ≡ ok document
    pub parsed : unmarshal document empty_metadata ≡ ok (some m)
    pub cached : (new_cache c (read_all body (send c request s).1).1).0 ≡ ok k
    pub registered :
        (register k c (5 * 60) m.jwks_uri (new_cache c (read_all body (send c request s).1).1).1).0
        ≡ ok tt

  pub record IsStarted (path : String) (store : Store) (given : Option Client) (s : State)
      (x : Evesso n) : Type 0 where
    pub configured : IsDecoded State resources files path empty_config x.cfg s
    pub set_up : (setup store x.cfg.dsn (load_config n path s).1).0 ≡ ok tt
    pub discovered :
        IsDiscovered x.client
          (setup store x.cfg.dsn (load_config n path s).1).1
          x.metadata
          x.refresher
    pub keeps_store : x.store ≡ store
    pub keeps_client : x.client ≡ client_of n given

  -- The part that the answer decides
  record IsRead (cfg : AppConfig) (store : Store) (c : Client) (b : Body) (s : State) (x : Evesso n)
      : Type 0 where
    text : String
    same_cfg : x.cfg ≡ cfg
    same_store : x.store ≡ store
    same_client : x.client ≡ c
    was_text : (read_all b s).0 ≡ ok text
    was_parsed : unmarshal text empty_metadata ≡ ok (some x.metadata)
    was_cached : (new_cache c (read_all b s).1).0 ≡ ok x.refresher
    was_registered :
        (register x.refresher c (5 * 60) x.metadata.jwks_uri (new_cache c (read_all b s).1).1).0
        ≡ ok tt

  set_refresher-some :
      (item : Option Metadata) (c : Client) (s : State) (m : Metadata × n.Cache)
      → (set_refresher n item c s).0 ≡ ok m
      → (item ≡ some m.0)
        × ((new_cache c s).0 ≡ ok m.1)
        × ((set_refresher n item c s).1 ≡ (new_cache c s).1)
  unfolding set_refresher
  set_refresher-some none c s m h = cc h
  set_refresher-some (some d) c s m h = elim (Result-cases (new_cache c s).0) [
    | inl (k, e) ↦
        let same : (d, k) ≡ m = cc (rw (set_refresher, e) at h) in
        (
          ap (λ (p : Metadata × n.Cache). some p.0) same,
          e ∙ ap (λ (p : Metadata × n.Cache). ok p.1) same,
          refl,
        )
    | inr (x, e) ↦ cc (rw (set_refresher, e) at h)
  ]

  discover-IsRead :
      (cfg : AppConfig) (store : Store) (c : Client) (b : n.Body) (s : State) (x : Evesso n)
      → (discover n cfg store c b s).0 ≡ ok x
      → IsRead cfg store c b s x
  unfolding discover
  discover-IsRead cfg store c b s x h =
      let s1 = (read_all b s).1 in
      elim (Result-cases (read_all b s).0) [
        | inr (y, e) ↦ cc (rw (discover, ◌>>=◌, e) at h)
        | inl (text, e) ↦ elim (Result-cases (unmarshal text empty_metadata)) [
          | inr (y, f) ↦ cc (rw (discover, ◌>>=◌, e, lift, f) at h)
          | inl (item, f) ↦
              let s2 = (set_refresher n item c s1).1 in
              elim (Result-cases (set_refresher n item c s1).0) [
                | inr (y, g) ↦ cc (rw (discover, ◌>>=◌, e, lift, f, g) at h)
                | inl (m, g) ↦ elim (Result-cases (register m.1 c (5 * 60) m.0.jwks_uri s2).0) [
                  | inr (y, k) ↦ cc (rw (discover, ◌>>=◌, e, lift, f, g, k) at h)
                  | inl (d, k) ↦
                      let y : Evesso n = record {
                        metadata = m.0;
                        refresher = m.1;
                        cfg = cfg;
                        client = c;
                        store = store;
                      } in
                      let same : y ≡ x = cc (rw (discover, ◌>>=◌, e, lift, f, g, k, pure) at h) in
                      let (some_item, cached, left) = set_refresher-some item c s1 m g in
                      subst (λ z. IsRead cfg store c b s z) same
                        (record {
                          text = text;
                          same_cfg = refl;
                          same_store = refl;
                          same_client = refl;
                          was_text = e;
                          was_parsed = f ∙ ap ok some_item;
                          was_cached = cached;
                          was_registered = rw left at k;
                        })
                ]
              ]
        ]
      ]

  load_config-IsDecoded :
      (path : String) (s : State) (cfg : AppConfig)
      → (load_config n path s).0 ≡ ok cfg
      → IsDecoded State resources files path empty_config cfg s
  load_config-IsDecoded path s cfg h =
      load-IsDecoded State resources files path empty_config s cfg
        (read_into (load State resources files path empty_config s).0 cfg h)

  -- An EVESSO that AutoConfig returns holds the configuration that the decoder chosen by the extension
  -- of the file read into empty fields; the given store, which was set up with the DSN of that
  -- configuration; the given client or else one with a timeout of five minutes; the metadata of the
  -- document, not `null`, that this client got after that for the discovery URL; and a new key cache, in
  -- which the jwks_uri of that metadata was then registered with this client.
  pub auto_config-IsStarted :
      (path : String) (store : Store) (given : Option Client) (s : State) (x : Evesso n)
      → (auto_config n path store given s).0 ≡ ok x
      → IsStarted path store given s x
  unfolding auto_config
  auto_config-IsStarted path store given s x h =
      let s1 = (load_config n path s).1 in
      elim (Result-cases (load_config n path s).0) [
        | inr (y, e) ↦ cc (rw (auto_config, ◌>>=◌, e) at h)
        | inl (cfg, e) ↦
            let s2 = (setup store cfg.dsn s1).1 in
            elim (Result-cases (setup store cfg.dsn s1).0) [
              | inr (y, f) ↦ cc (rw (auto_config, ◌>>=◌, e, f) at h)
              | inl (d, f) ↦ elim (Result-cases (new_request discovery_url)) [
                | inr (y, g) ↦ cc (rw (auto_config, ◌>>=◌, e, f, lift, g) at h)
                | inl (r, g) ↦
                    let c = client_of n given in
                    let s3 = (send c r s2).1 in
                    elim (Result-cases (send c r s2).0) [
                      | inr (y, k) ↦ cc (rw (auto_config, ◌>>=◌, e, f, lift, g, k) at h)
                      | inl (b, k) ↦
                          let found =
                            discover-IsRead cfg store c b s3 x
                              (rw (auto_config, ◌>>=◌, e, f, lift, g, k, deferred) at h) in
                          record {
                            configured = rw found.same_cfg (load_config-IsDecoded path s cfg e);
                            set_up = rw found.same_cfg f;
                            discovered =
                                rw (found.same_cfg, found.same_client)
                                  (record {
                                    request = r;
                                    requested = g;
                                    body = b;
                                    answered = k;
                                    document = found.text;
                                    was_read = found.was_text;
                                    parsed = found.was_parsed;
                                    cached = found.was_cached;
                                    registered = found.was_registered;
                                  });
                            keeps_store = found.same_store;
                            keeps_client = found.same_client;
                          }
                    ]
              ]
            ]
      ]
