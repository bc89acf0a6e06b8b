-- ===== src/Sso/Verify.antt =====
-- What a token that validateAccessToken accepts has passed.
use evesso.Prelude.{
  ◌≡◌, ap, ◌∙◌, inl, inr, String, true, some, [], ◌∷◌, arith, Any, Any-imp, any-true, any, str_eq,
  eq_iff, Bool-cases, Option-cases,
}
use evesso.Exec.{ok, Result-cases, ◌>>=◌}
use evesso.World.{World}
use evesso.Claims.{Jwt, check_issuer, valid_issuers, audience_name}
use evesso.Sso.{Sso, IsTimely, acceptable_skew, validate_access_token}

check_issuer_sound :
    (t : Jwt) → check_issuer t ≡ ok tt → Any (λ iss. t.issuer ≡ some iss) valid_issuers
unfolding check_issuer
check_issuer_sound t h = elim (Option-cases t.issuer) [
  | inl e ↦ ground (arith, rw e at h)
  | inr (iss, e) ↦ elim (Bool-cases (any (str_eq iss) valid_issuers)) [
    | inl listed ↦
        Any-imp (λ v. str_eq iss v ≡ true) (λ v. t.issuer ≡ some v)
          (λ v same. e ∙ ap some ((eq_iff iss v).0 same)) valid_issuers
          (any-true (str_eq iss) valid_issuers listed)
    | inr other ↦ ground (arith, rw (e, other) at h)
  ]
]

module _ (w : World) (sso : Sso w) where
  -- In a state: a signature over the claims by a key of the set that the cache then holds for the URI of
  -- the SSO, times that fit, one of the two issuers, and both audiences.
  pub record IsAccepted (s : w.State) (client_id text : String) (t : Jwt) : Type 0 where
    pub keys : sso.Keys
    pub looked_up : (sso.lookup sso.jwks_uri s).0 ≡ ok keys
    pub signed : sso.IsSigned keys text t
    pub timely : IsTimely (w.clock (sso.lookup sso.jwks_uri s).1) acceptable_skew t
    pub issued : Any (λ iss. t.issuer ≡ some iss) valid_issuers
    pub for_eve : Any (λ a. audience_name ≡ a) t.audience
    pub for_client : Any (λ a. client_id ≡ a) t.audience

  -- A token that is accepted after the keys have been looked up
  pub validate_access_token-IsAccepted :
      (ks : sso.Keys) (client_id text : String) (t : Jwt) (s : w.State)
      → (sso.lookup sso.jwks_uri s).0 ≡ ok ks
      → (validate_access_token w sso ks client_id text (sso.lookup sso.jwks_uri s).1).0 ≡ ok t
      → IsAccepted s client_id text t
  unfolding validate_access_token
  validate_access_token-IsAccepted ks client_id text t s looked_up h =
      let now = w.clock (sso.lookup sso.jwks_uri s).1 in
      let (signed, timely, checked, meant) =
        sso.parse-sound now ks check_issuer (audience_name ∷ client_id ∷ []) acceptable_skew text t
          h in
      record {
        keys = ks;
        looked_up = looked_up;
        signed = signed;
        timely = timely;
        issued = check_issuer_sound t checked;
        for_eve = meant.0;
        for_client = meant.1.0;
      }

  -- What verify of EVESSO and validate of a token source both do
  pub lookup-IsAccepted :
      (client_id text : String) (t : Jwt) (s : w.State)
      → ((sso.lookup sso.jwks_uri >>= λ ks. validate_access_token w sso ks client_id text) s).0
        ≡ ok t
      → IsAccepted s client_id text t
  lookup-IsAccepted client_id text t s h = elim (Result-cases (sso.lookup sso.jwks_uri s).0) [
    | inl (ks, e) ↦ validate_access_token-IsAccepted ks client_id text t s e (rw (e, ◌>>=◌) at h)
    | inr (e, e') ↦ cc (rw (e', ◌>>=◌) at h)
  ]

  pub lookup_validate-tables :
      (client_id text : String) (s : w.State)
      → w.tables
          ((sso.lookup sso.jwks_uri >>= λ ks. validate_access_token w sso ks client_id text) s).1
        ≡ w.tables s
  unfolding validate_access_token
  lookup_validate-tables client_id text s = ground (arith, sso.lookup-tables sso.jwks_uri s)
