-- ===== src/Callback/Identity.antt =====
-- By what a request to ServeHTTP can change the stored characters.
use evesso.Prelude.{◌+◌, ◌-◌, ◌<◌, ◌≡◌, refl, ap, ◌∙◌, String, List, ltb, ◌⊎◌, inl, inr, Any}
use evesso.Exec.{ok}
use evesso.Sql.{Uuid, Pkce, Profile, Character}
use evesso.World.{World}
use evesso.Store.Base.{five_minutes, OauthToken, CharacterClaims}
use evesso.Store.Pkces.{find_pkce, pkce_profile, destroy, clean_pkce, stored_value}
use evesso.Store.Pkces.Expiry.{
  find_pkce_sound, find_pkce-tables, destroy_outcome, without_pkce, clean_pkce_outcome,
}
use evesso.Store.Profiles.Reading.{get_profile_sound, get_profile-tables}
use evesso.Store.Characters.{create_character}
use evesso.Claims.{Jwt, new_character_claims}
use evesso.Claims.Scopes.{StandsFor, new_character_claims_iff}
use evesso.Sso.{Sso, AppConfig}
use evesso.Sso.Verify.{IsAccepted, lookup-IsAccepted, lookup_validate-tables}
use evesso.Callback.{Response, attempt-elim, if-elim, verify, serve_http}

module _ (w : World) (sso : Sso w) (cfg : AppConfig) where
  open w use {State, tables, clock}
  open sso use {exchange, exchange-tables, parse_uuid}

  abbrev pub characters_of : State → List Character
  characters_of s = (tables s).characters

  pub verify-tables : (text : String) (s : State) → tables (verify w sso cfg text s).1 ≡ tables s
  unfolding verify
  verify-tables text s = lookup_validate-tables w sso cfg.key text s

  pub verify-IsAccepted :
      (text : String) (s : State) (t : Jwt)
      → (verify w sso cfg text s).0 ≡ ok t
      → IsAccepted w sso s cfg.key text t
  unfolding verify
  verify-IsAccepted text s t h = lookup-IsAccepted w sso cfg.key text t s h

  pub clean_pkce-characters : (s : State) → characters_of (clean_pkce w s).1 ≡ characters_of s
  clean_pkce-characters s = elim (clean_pkce_outcome w s) [
    | inl (_, _, _, _, same) ↦ same
    | inr (_, same) ↦ ap (λ t. t.characters) same
  ]

  -- How the characters `rows` came to be stored by a request with `code` and `state` in the state s.
  pub record IsAuthorized (code state : String) (s : State) (rows : List Character) : Type 0 where
    pub state_id : Uuid
    pub parsed : parse_uuid state ≡ ok state_id
    pub pkce : Pkce
    pub asked : Any (λ k. pkce ≡ k) (tables s).pkces × (pkce.state ≡ state_id)
    pub young : clock s < pkce.created_at + five_minutes
    pub profile : Profile
    pub owned : Any (λ p. profile ≡ p) (tables s).profiles × (profile.id ≡ pkce.profile_ref)
    pub during : State
    pub reached : during ≡ (destroy w pkce (pkce_profile w pkce (find_pkce w state_id s).1).1).1
    pub token : OauthToken
    pub exchanged : (exchange code pkce.code_verifier during).0 ≡ ok token
    pub jwt : Jwt
    pub accepted :
        IsAccepted w sso (exchange code pkce.code_verifier during).1 cfg.key token.access_token jwt
    pub claims : CharacterClaims
    pub identified : StandsFor jwt claims
    pub before : State
    pub destroyed : tables before ≡ without_pkce w pkce.id (tables s)
    pub written :
        rows
        ≡ characters_of
            (create_character w profile claims token (stored_value w pkce.reference_data) before).1

  pub after_destroy :
      (k : Pkce) (s t : State)
      → tables t ≡ tables s
      → (destroy w k t).0 ≡ ok tt
      → tables (destroy w k t).1 ≡ without_pkce w k.id (tables s)
  after_destroy k s t same done = elim (destroy_outcome w k t) [
    | inl (_, after) ↦ after ∙ ap (without_pkce w k.id) same
    | inr (failed, _) ↦ cc (failed, done)
  ]

  pub destroy-characters :
      (k : Pkce) (s : State) → characters_of (destroy w k s).1 ≡ characters_of s
  destroy-characters k s = elim (destroy_outcome w k s) [
    | inl (_, after) ↦ ap (λ t. t.characters) after
    | inr (_, same) ↦ ap (λ t. t.characters) same
  ]

  -- A request to ServeHTTP either leaves the stored characters as they are, or they are what CreateCharacter
  -- makes of the claims of a token signed by a key that the cache held for the URI of the SSO when the token
  -- was verified, within its times, issued by the SSO, for EVE Online and for this client, which the SSO
  -- exchanged for the code of the request and the code verifier of a PKCE row; that row was stored under the state of the request, less than five minutes old, and deleted
  -- before, and the profile that the character is stored for is the one that the row belongs to.
  pub serve_http_characters :
      (code state : String) (s : State)
      → let s' = (serve_http w sso cfg code state s).1 in
        (characters_of s' ≡ characters_of s) ⊎ IsAuthorized code state s (characters_of s')
  unfolding serve_http pkce_profile
  serve_http_characters code state s =
      let P = λ (out : Response × State).
        (characters_of out.1 ≡ characters_of s) ⊎ IsAuthorized code state s (characters_of out.1) in
      attempt-elim P _ (parse_uuid state, s) _ (λ e f. inl refl)
        λ id parsed.
          let same1 = find_pkce-tables w id s in
          attempt-elim P _ (find_pkce w id s) _ (λ e f. inl (ap (λ t. t.characters) same1))
            λ k found.
              let s1 = (find_pkce w id s).1 in
              let same2 = get_profile-tables w k.profile_ref s1 ∙ same1 in
              attempt-elim P _ (pkce_profile w k s1) _ (λ e f. inl (ap (λ t. t.characters) same2))
                λ p owner.
                  let s2 = (pkce_profile w k s1).1 in
                  let same3 = destroy-characters k s2 ∙ ap (λ t. t.characters) same2 in
                  attempt-elim P _ (destroy w k s2) _ (λ e f. inl same3)
                    λ done done_ok.
                      let s3 = (destroy w k s2).1 in
                      if-elim P (ltb five_minutes (clock s3 - k.created_at)) _ _ (λ late. inl same3)
                        λ early.
                          let same4 = exchange-tables code k.code_verifier s3 in
                          let kept4 = ap (λ t. t.characters) same4 ∙ same3 in
                          attempt-elim P _ (exchange code k.code_verifier s3) _ (λ e f. inl kept4)
                            λ token exchanged.
                              let s4 = (exchange code k.code_verifier s3).1 in
                              let same5 = verify-tables token.access_token s4 in
                              let kept5 = ap (λ t. t.characters) same5 ∙ kept4 in
                              attempt-elim P _ (verify w sso cfg token.access_token s4) _
                                (λ e f. inl kept5)
                                λ jt verified.
                                  let s5 = (verify w sso cfg token.access_token s4).1 in
                                  attempt-elim P _ (new_character_claims jt, s5) _
                                    (λ e f. inl kept5)
                                    λ claims read.
                                      let (there, right, young) = find_pkce_sound w id s k found in
                                      let (known, same_id) =
                                        get_profile_sound w k.profile_ref s1 p owner in
                                      let accepted =
                                        verify-IsAccepted token.access_token s4 jt verified in
                                      let value = stored_value w k.reference_data in
                                      let made = (create_character w p claims token value s5).1 in
                                      let authorized : IsAuthorized code state s
                                          (characters_of made) =
                                        record {
                                          state_id = id;
                                          parsed = parsed;
                                          pkce = k;
                                          asked = (there, right);
                                          young = young;
                                          profile = p;
                                          owned = (rw same1 at known, same_id);
                                          during = s3;
                                          reached = refl;
                                          token = token;
                                          exchanged = exchanged;
                                          jwt = jt;
                                          accepted = accepted;
                                          claims = claims;
                                          identified = (new_character_claims_iff jt claims).0 read;
                                          before = s5;
                                          destroyed =
                                              same5 ∙ same4 ∙ after_destroy k s s2 same2 done_ok;
                                          written = refl;
                                        } in
                                      attempt-elim P _ (create_character w p claims token value s5)
                                        _ (λ e f. inr authorized)
                                        λ c stored. inr (rw (clean_pkce-characters made) authorized)
