-- ===== src/Sso/Memory.antt =====
-- A single sign-on for the world in memory: the key set of one URI and that of all others, one text that parses to a signed token, a
-- token endpoint that answers every code and every refresh token with it, and no UUID but one.
use evesso.Prelude.{
  ◌+◌, ◌<◌, ◌&&◌, ltb, Bool, none, ◌≡◌, refl, arith, inl, inr, ◌==◌, eq_iff, Bool-cases, All-imp,
  Any-imp, any-true, all_iff, ℕ, String, true, false, some, List, [], ◌∷◌, All, Any, all, any,
  str_eq, if◌then◌else◌,
}
use evesso.Exec.{remote, Done, Result, Result-cases, ok, err}
use evesso.World.Memory.{memory}
use evesso.Store.Base.{OauthToken}
use evesso.Claims.{Claim, Item, Jwt}
use evesso.Sql.{Time}
use evesso.Sso.{Sso, AppConfig, IsTimely}

abbrev pub config : AppConfig
config = record {
  key = "client";
  secret = "secret";
  callback = "http://localhost/callback";
  redirect = "http://localhost/";
  dsn = "";
  autocert = false;
  autocert_cache = "";
  tls_cert = "";
  tls_key = "";
}

abbrev pub issued : OauthToken
issued = record { access_token = "signed"; refresh_token = "fresh"; expiry = 9 }

abbrev pub carol : Jwt
carol = record {
  issuer = some "login.eveonline.com";
  audience = "EVE Online" ∷ "client" ∷ [];
  subject = some "CHARACTER:EVE:90000003";
  scp = some (Claim.items (Item.text "skills" ∷ Item.text "mail" ∷ []));
  name = some (Claim.text "Carol");
  owner = some (Claim.text "owner");
  expiration = some 1090000000;
  not_before = none;
  issued_at = none;
}

abbrev read_token : Time → Bool → (Jwt → Result Done) → List String → Time → String → Result Jwt
read_token now ks validate audiences skew text =
    if (ks && str_eq text "signed") && ltb now (1090000000 + skew)
    then elim (validate carol) [
      | ok done ↦
          if all (λ a. any (str_eq a) carol.audience) audiences then ok carol else err (remote 1)
      | err e ↦ err e
    ]
    else err (remote 2)

carol-IsTimely : (now skew : Time) → ltb now (1090000000 + skew) ≡ true → IsTimely now skew carol
carol-IsTimely now skew h = record {
  unexpired = λ e same.
      let at : 1090000000 ≡ e = ground (arith, same) in
      let soon : now < 1090000000 + skew = ground (arith, h) in rw (← at) soon;
  begun = λ e same. cc same;
  issued = λ e same. cc same;
}

pub read_token_sound :
    (now : Time) (ks : Bool) (validate : Jwt → Result Done) (audiences : List String) (skew : Time)
    (text : String) (t : Jwt)
    → read_token now ks validate audiences skew text ≡ ok t
    → ((ks ≡ true) × (t ≡ carol))
      × IsTimely now skew t
      × (validate t ≡ ok tt)
      × All (λ a. Any (λ b. a ≡ b) t.audience) audiences
read_token_sound now ks validate audiences skew text t h =
    elim (Bool-cases ((ks && str_eq text "signed") && ltb now (1090000000 + skew))) [
      | inr other ↦ cc (rw other at h)
      | inl same ↦ elim (Result-cases (validate carol)) [
        | inr (e, f) ↦ cc (rw (same, f) at h)
        | inl (done, valid) ↦
            elim (Bool-cases (all (λ a. any (str_eq a) carol.audience) audiences)) [
              | inr lacking ↦ cc (rw (same, valid, lacking) at h)
              | inl meant ↦
                  let is : carol ≡ t = ground (arith, rw (same, valid, meant) at h) in
                  let right : ks ≡ true = ground (arith, same) in
                  let soon : ltb now (1090000000 + skew) ≡ true = ground (arith, same) in
                  rw (← is) (
                    (right, refl),
                    carol-IsTimely now skew soon,
                    valid,
                    All-imp (λ a. any (str_eq a) carol.audience ≡ true)
                        (λ a. Any (λ b. a ≡ b) carol.audience)
                        (λ a k.
                          Any-imp (λ b. str_eq a b ≡ true) (λ b. a ≡ b) (λ b. (eq_iff a b).0)
                            carol.audience (any-true (str_eq a) carol.audience k))
                        audiences
                        ((all_iff (λ a. any (str_eq a) carol.audience) audiences).0 meant),
                  )
            ]
      ]
    ]

-- Whether the token endpoint refuses is decided by the refresh token.
abbrev refresh_by : OauthToken → Result OauthToken
refresh_by t = if str_eq t.refresh_token "revoked" then err (remote 400) else ok issued

abbrev uuid_of : String → Result ℕ
uuid_of text = if str_eq text "state" then ok 21 else err (remote 3)

abbrev pub sign_on : Sso memory
sign_on = record {
  jwks_uri = "https://login.eveonline.com/oauth/jwks";
  Keys = Bool;
  lookup = λ uri s. (ok (str_eq uri "https://login.eveonline.com/oauth/jwks"), s);
  lookup-tables = λ uri s. refl;
  IsSigned = λ ks text t. (ks ≡ true) × (t ≡ carol);
  parse = read_token;
  parse-sound = read_token_sound;
  exchange = λ code verifier s. (ok issued, s);
  exchange-tables = λ code verifier s. refl;
  refreshed = λ t s. (refresh_by t, s);
  refreshed-tables = λ t s. refl;
  is_retrieve_error = λ e. elim e [ remote n ↦ n == 400 | _ ↦ false ];
  auth_code_url = λ cfg scopes state challenge method. challenge;
  parse_uuid = uuid_of;
}
