-- ===== src/Localhost/Address.antt =====
-- How LocalhostAuth chooses its address, TLS and certificates.
use Prim.Native.String.{◌++◌ as append}
use evesso.Prelude.{
  ◌≡◌, ◌↔◌, refl, ap, eq_iff, String, Bool, true, false, ◌&&◌, not, if◌then◌else◌, str_eq,
  Bool-cases, inl, inr,
}
use evesso.Sso.{AppConfig}

-- What url.Parse gives of the callback: Scheme, Port(), Hostname() and Path.
pub record CallbackUrl : Type 0 where
  pub scheme : String
  pub port : String
  pub hostname : String
  pub path : String

-- srv.ListenAndServe, or srv.ListenAndServeTLS with two file names, on srv.Addr
pub data Listen : Type 0 where
  plain : (address : String) → Listen
  tls : (address certificate key : String) → Listen

-- Whether srv.TLSConfig is that of an autocert.Manager for the host.
unfoldable pub has_manager : CallbackUrl → AppConfig → Bool
has_manager callback cfg =
    str_eq callback.port "" && not (str_eq callback.scheme "http") && cfg.autocert

-- The switch of the goroutine
unfoldable pub listen_of : CallbackUrl → AppConfig → Listen
listen_of callback cfg =
    if str_eq callback.port "" && str_eq callback.scheme "http"
    then Listen.plain ":80"
    else if str_eq callback.port ""
    then if cfg.autocert
      then Listen.tls ":443" "" ""
      else Listen.tls ":443" cfg.tls_cert cfg.tls_key
    else Listen.plain (append ":" callback.port)

files_given :
    (certificate key : String)
    → str_eq certificate "" ≡ false
    → ¬ (Listen.tls ":443" certificate key ≡ Listen.tls ":443" "" "")
files_given certificate key given e =
    let name : Listen → String = λ l. elim l [ plain a ↦ a | tls a c k ↦ c ] in
    cc ((eq_iff certificate "").1 (ap name e), given)

-- Where certificate files are configured, the server listens without file names exactly where an
-- autocert manager has been installed to supply the certificates.
pub listen_of-has_manager :
    (callback : CallbackUrl) (cfg : AppConfig)
    → str_eq cfg.tls_cert "" ≡ false
    → (listen_of callback cfg ≡ Listen.tls ":443" "" "") ↔ (has_manager callback cfg ≡ true)
unfolding listen_of has_manager
listen_of-has_manager callback cfg given = elim (Bool-cases (str_eq callback.port "")) [
  | inr ported ↦ rw ported (λ e. cc e, λ m. cc m)
  | inl bare ↦ elim (Bool-cases (str_eq callback.scheme "http")) [
    | inl http ↦ rw (bare, http) (λ e. cc e, λ m. cc m)
    | inr other ↦ elim (Bool-cases cfg.autocert) [
      | inl auto ↦ rw (bare, other, auto) (λ e. refl, λ m. refl)
      | inr files ↦
          rw (bare, other, files)
            (λ e. absurd (files_given cfg.tls_cert cfg.tls_key given e), λ m. cc m)
    ]
  ]
]
