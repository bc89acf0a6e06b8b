-- ===== src/DataStore/Verified.antt =====
-- Which claims reach CreateCharacter of a DataStore.
use evesso.Prelude.{
  ◌-◌, ◌≡◌, refl, ap, String, Bool, true, false, Option, ltb, if◌then◌else◌, inl, inr,
}
use evesso.Exec.{Error, Result, ok, err, Exec, lift, ◌>>=◌, Result-cases}
use evesso.Sql.{Uuid}
use evesso.World.{World}
use evesso.Store.Base.{five_minutes, CharacterClaims, OauthToken}
use evesso.Claims.{Jwt, new_character_claims}
use evesso.Sso.{Sso, AppConfig}
use evesso.Sso.Verify.{IsAccepted}
use evesso.Callback.{Response, attempt, verify}
use evesso.Callback.Identity.{verify-IsAccepted}
use evesso.DataStore.{DataStore}
use evesso.DataStore.Handler.{serve, store_token}

-- Attempts that go on in the same way, after the same step
attempt_cong :
    {S A : Type 0} (f : Error → Response) (r : Result A × S) (k l : A → S → Response × S)
    → ((a : A) → r.0 ≡ ok a → k a r.1 ≡ l a r.1)
    → attempt f r k ≡ attempt f r l
attempt_cong f (ok a, s) k l h = h a refl
attempt_cong f (err e, s) k l h = refl

if_cong : {A : Type 0} (b : Bool) (x p q : A) → p ≡ q → (if b then x else p) ≡ (if b then x else q)
if_cong true x p q h = refl
if_cong false x p q h = h

module _ (w : World) (sso : Sso w) (cfg : AppConfig) (d : DataStore w.State w.Value) where
  open w use {State, Value, clock}
  open sso use {exchange, parse_uuid}

  abbrev pub Creation : Type 0
  Creation = d.Profile → CharacterClaims → OauthToken → Option Value → Exec State d.Character

  -- The store with another CreateCharacter
  abbrev pub creating : Creation → DataStore State Value
  creating create = record d { profile = record d.profile { create_character = create } }

  -- The two agree on the claims of a token that passes the checks of validateAccessToken in some state.
  abbrev pub AgreesOnVerified : Creation → Type 0
  AgreesOnVerified create =
      (at : State) (t : OauthToken) (jt : Jwt) (claims : CharacterClaims)
      → IsAccepted w sso at cfg.key t.access_token jt
      → new_character_claims jt ≡ ok claims
      → (p : d.Profile) (reference : Option Value) (s : State)
      → d.profile.create_character p claims t reference s ≡ create p claims t reference s

  -- With a token, both end in the same way.
  finish_cong :
      (create : Creation)
      → AgreesOnVerified create
      → (profile : d.Profile) (token : OauthToken) (reference : Option Value) (s4 : State)
      → attempt Response.encoded_error (verify w sso cfg token.access_token s4) (λ jt s5.
        attempt Response.encoded_error
          (new_character_claims jt, s5)
          λ claims s6.
            attempt Response.encoded_error
              (d.profile.create_character profile claims token reference s6)
              λ c s7. (Response.redirected cfg.redirect, (d.clean_pkce s7).1))
        ≡ attempt Response.encoded_error (verify w sso cfg token.access_token s4) (λ jt s5.
          attempt Response.encoded_error
            (new_character_claims jt, s5)
            λ claims s6.
              attempt Response.encoded_error
                (create profile claims token reference s6)
                λ c s7. (Response.redirected cfg.redirect, (d.clean_pkce s7).1))
  finish_cong create h profile token reference s4 =
      let s5 = (verify w sso cfg token.access_token s4).1 in
      attempt_cong Response.encoded_error (verify w sso cfg token.access_token s4) _ _
        λ jt verified.
          attempt_cong Response.encoded_error (new_character_claims jt, s5) _ _
            λ claims read.
              let accepted = verify-IsAccepted w sso cfg token.access_token s4 jt verified in
              ap
                (λ r.
                  attempt Response.encoded_error r
                    λ c s7. (Response.redirected cfg.redirect, (d.clean_pkce s7).1))
                (h s4 token jt claims accepted read profile reference s5)

  store_cong :
      (create : Creation)
      → AgreesOnVerified create
      → (profile_id : Uuid) (t : OauthToken) (reference : Option Value) (s : State)
      → store_token w sso cfg d profile_id t reference s
        ≡ store_token w sso cfg (creating create) profile_id t reference s
  unfolding store_token
  store_cong create h profile_id t reference s =
      let s1 = (verify w sso cfg t.access_token s).1 in
      elim (Result-cases (verify w sso cfg t.access_token s).0) [
        | inr (e, failed) ↦ rw (◌>>=◌, failed) refl
        | inl (jt, verified) ↦ elim (Result-cases (new_character_claims jt)) [
          | inr (e, failed) ↦ rw (◌>>=◌, verified, lift, failed) refl
          | inl (claims, read) ↦ elim (Result-cases (d.get_profile profile_id s1).0) [
            | inr (e, failed) ↦ rw (◌>>=◌, verified, lift, read, failed) refl
            | inl (profile, got) ↦
                let accepted = verify-IsAccepted w sso cfg t.access_token s jt verified in
                rw (◌>>=◌, verified, lift, read, got)
                  (h s t jt claims accepted read profile reference (d.get_profile profile_id s1).1)
          ]
        ]
      ]

  serve_cong :
      (create : Creation)
      → AgreesOnVerified create
      → (code state : String) (s : State)
      → serve w sso cfg d code state s ≡ serve w sso cfg (creating create) code state s
  unfolding serve
  serve_cong create h code state s =
      attempt_cong (λ e. Response.discarded) (parse_uuid state, s) _ _
        λ state_id read_state.
          attempt_cong (λ e. Response.discarded) (d.find_pkce state_id s) _ _
            λ pkce found.
              let s1 = (d.find_pkce state_id s).1 in
              attempt_cong (λ e. Response.discarded) (d.pkce.get_profile pkce s1) _ _
                λ profile owner.
                  let s2 = (d.pkce.get_profile pkce s1).1 in
                  attempt_cong (λ e. Response.discarded) (d.pkce.destroy pkce s2) _ _
                    λ done destroyed.
                      let s3 = (d.pkce.destroy pkce s2).1 in
                      if_cong (ltb five_minutes (clock s3 - d.pkce.time pkce)) _ _ _ (
                        attempt_cong Response.encoded_error
                          (exchange code (d.pkce.get_code_verifier pkce) s3) _ _
                          λ token exchanged.
                            finish_cong create h profile token (d.pkce.get_reference_data pkce)
                              (exchange code (d.pkce.get_code_verifier pkce) s3).1)

  -- No DataStore is handed an identity that nobody verified: a store may do anything in CreateCharacter
  -- with claims other than those of a token that in some state is signed by a key that the cache then
  -- holds for the URI of the SSO, within its times, issued by the SSO, for EVE Online and for this client,
  -- and with such claims under another token; neither ServeHTTP nor Save behaves differently.
  pub only_verified :
      (create : Creation)
      → AgreesOnVerified create
      → (code state : String) (profile_id : Uuid) (t : OauthToken) (reference : Option Value)
        (s : State)
      → (serve w sso cfg d code state s ≡ serve w sso cfg (creating create) code state s)
        × (store_token w sso cfg d profile_id t reference s
            ≡ store_token w sso cfg (creating create) profile_id t reference s)
  only_verified create h code state profile_id t reference s =
      (serve_cong create h code state s, store_cong create h profile_id t reference s)
