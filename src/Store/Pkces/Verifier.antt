-- ===== src/Store/Pkces/Verifier.antt =====
-- The code verifier and the challenge of a PKCE.
use evesso.Prelude.{
  ℕ, ◌≡◌, refl, true, Option, some, List, length, arith, inl, inr, Option-cases, All,
}
use evesso.Exec.{Result-cases, ok, ◌>>=◌}
use evesso.Sql.{Strings, Profile, Pkce, PkceValues, insert_pkce}
use evesso.World.{World}
use evesso.Store.Query.{query_struct}
use evesso.Store.Pkces.{make_pkce, create_pkce}
use evesso.Base64.{raw_url_encode}
use evesso.Base64.Alphabet.{is_unreserved}
use evesso.Base64.Laws.{
  raw_url_decode, length-raw_url_encode, raw_url_encode-is_unreserved, raw_url_decode-encode,
}
use evesso.Claims.Subject.{codes}

module _ (w : World) where
  open w use {State, Value, marshal, random, sha256}

  -- What RFC 7636 asks of a verifier and of its S256 challenge, and where the verifier comes from.
  pub record IsVerifier (bytes : List ℕ) (v : PkceValues) : Type 0 where
    pub length_is_43 : length (codes v.code_verifier) ≡ 43
    pub is_unreserved_only : All (λ c. is_unreserved c ≡ true) (codes v.code_verifier)
    pub decodes : raw_url_decode v.code_verifier ≡ bytes
    pub challenge : v.code_challange ≡ raw_url_encode (sha256 v.code_verifier)
    pub method : v.code_challange_method ≡ "S256"

  make_pkce-IsVerifier :
      (p : Profile) (s : State) (v : PkceValues)
      → make_pkce w p s ≡ some v
      → (bytes : List ℕ) × (random s ≡ some bytes) × IsVerifier bytes v
  unfolding make_pkce
  make_pkce-IsVerifier p s v h = elim (Option-cases (random s)) [
    | inl e ↦ cc (rw (e, make_pkce) at h)
    | inr (bytes, e) ↦
        let same = rw (e, make_pkce) at h in
        let (full, each) = w.random-bytes s bytes e in
        let verifier : v.code_verifier ≡ raw_url_encode bytes = ground (arith, same) in
        let challenge : v.code_challange ≡ raw_url_encode (sha256 (raw_url_encode bytes)) =
          ground (arith, same) in
        let method : v.code_challange_method ≡ "S256" = ground (arith, same) in
        (
          bytes,
          e,
          record {
            length_is_43 = rw (verifier, length-raw_url_encode bytes, full) refl;
            is_unreserved_only = rw verifier (raw_url_encode-is_unreserved bytes each);
            decodes = rw verifier (raw_url_decode-encode bytes each);
            challenge = rw verifier challenge;
            method = method;
          },
        )
  ]

  -- The verifier of a PKCE that CreatePKCE returns has 43 characters, all of them unreserved, as RFC 7636
  -- asks, and decodes to the 32 random bytes, so two verifiers are equal only if those are; its challenge
  -- is the encoded SHA-256 of the verifier, under the method S256.
  pub create_pkce-IsVerifier :
      (p : Profile) (reference_data : Option Value) (scopes : Strings) (s : State) (k : Pkce)
      → (create_pkce w p reference_data scopes s).0 ≡ ok k
      → (bytes : List ℕ) × (random s ≡ some bytes) × IsVerifier bytes k.values
  unfolding create_pkce
  create_pkce-IsVerifier p reference_data scopes s k e = elim (Option-cases (make_pkce w p s)) [
    | inl bad ↦ cc (rw (create_pkce, bad) at e)
    | inr (made, good) ↦ elim (Result-cases (marshal reference_data)) [
      | inr (f, bad) ↦ cc (rw (good, create_pkce, bad) at e)
      | inl (text, read) ↦
          let v : PkceValues = record made { reference_data = some text; scopes = scopes } in
          elim (Result-cases (query_struct w (insert_pkce v) s).0) [
            | inr (f, refused) ↦ cc (rw (good, create_pkce, read, refused, ◌>>=◌) at e)
            | inl (ids, inserted) ↦
                let same : ok (record { id = ids.0; state = ids.1; values = v }) ≡ ok k =
                  rw (good, create_pkce, read, inserted, ◌>>=◌) at e in
                let row : record { id = ids.0; state = ids.1; values = v } ≡ k = cc same in
                let (bytes, drawn, is) = make_pkce-IsVerifier p s made good in
                (
                  bytes,
                  drawn,
                  rw (← row) (record {
                    length_is_43 = is.length_is_43;
                    is_unreserved_only = is.is_unreserved_only;
                    decodes = is.decodes;
                    challenge = is.challenge;
                    method = is.method;
                  }),
                )
          ]
    ]
  ]
