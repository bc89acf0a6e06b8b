-- ===== src/TokenSource/Saving.antt =====
-- What ssoTokenSource.Save stores, and what Token does after it.
use evesso.Prelude.{
  ◌≡◌, ◌≢◌, refl, ap, ◌∙◌, false, Option, none, some, inl, inr, str_eq, eq_iff, Bool-cases,
}
use evesso.Exec.{fault, ok, err, Result-cases, bind-err, bind-ok, ◌>>=◌}
use evesso.Sql.{Profile}
use evesso.World.{World}
use evesso.Store.Base.{OauthToken, CharacterClaims}
use evesso.Store.Profiles.{get_profile}
use evesso.Store.Profiles.Reading.{get_profile_sound}
use evesso.Store.Characters.{create_character}
use evesso.Claims.{Jwt, new_character_claims}
use evesso.Claims.Scopes.{StandsFor, new_character_claims_iff}
use evesso.Sso.{Sso, AppConfig}
use evesso.Sso.Verify.{IsAccepted}
use evesso.TokenSource.{
  Source, validate, save, get_token, load_token, refresh_held, store_refresh_token,
  store_access_token, on_character,
}
use evesso.TokenSource.Refresh.{validate_sound}

module _ (w : World) (sso : Sso w) (cfg : AppConfig) where
  open w use {State, tables, Value}
  open sso use {refreshed}

  -- How Save stored the token t for the source o, from the world in s, and left it in s'.
  pub record IsSaved (o : Source) (t : OauthToken) (reference_data : Option Value) (s s' : State)
      : Type 0 where
    pub jwt : Jwt
    pub accepted : IsAccepted w sso s cfg.key t.access_token jwt
    pub claims : CharacterClaims
    pub identified : StandsFor jwt claims
    pub profile : Profile
    pub owner : profile.id ≡ o.profile_id
    pub before : State
    pub reached : before ≡ (get_profile w o.profile_id (validate w sso cfg t s).1).1
    pub written : s' ≡ (create_character w profile claims t reference_data before).1

  -- If Save succeeds, the token has passed the checks of validateAccessToken in the state in which Save began:
  -- signed by a key that the cache then held for the URI of the SSO, within its times, issued by the SSO,
  -- for EVE Online and for this client; and what is stored is what CreateCharacter makes of the claims of the verified token, for a profile
  -- with the id of the source; the source holds the token, and its character is as it was.
  pub save_sound :
      (o : Source) (s : State) (t : OauthToken) (reference_data : Option Value)
      → (save w sso cfg t reference_data (o, s)).0 ≡ ok tt
      → let (o', s') = (save w sso cfg t reference_data (o, s)).1 in
        (o' ≡ record o { token = some t }) × IsSaved o t reference_data s s'
  unfolding save
  save_sound o s t reference_data =
      let checked = validate w sso cfg t s in
      elim (Result-cases checked.0) [
        | inr (x, e) ↦ rw (e, ◌>>=◌) (λ h. cc h)
        | inl (jt, e) ↦ elim (Result-cases (new_character_claims jt)) [
          | inr (x, f) ↦ rw (e, ◌>>=◌, f) (λ h. cc h)
          | inl (claims, f) ↦
              let found = get_profile w o.profile_id checked.1 in
              elim (Result-cases found.0) [
                | inr (x, g) ↦ rw (e, ◌>>=◌, f, g) (λ h. cc h)
                | inl (p, g) ↦
                    let made = create_character w p claims t reference_data found.1 in
                    elim (Result-cases made.0) [
                      | inr (x, m) ↦ rw (e, ◌>>=◌, f, g, m) (λ h. cc h)
                      | inl (c, m) ↦
                          rw (e, ◌>>=◌, f, g, m)
                            (λ h. (
                              refl,
                              record {
                                jwt = jt;
                                accepted = validate_sound w sso cfg t s jt e;
                                claims = claims;
                                identified = (new_character_claims_iff jt claims).0 f;
                                profile = p;
                                owner = (get_profile_sound w o.profile_id checked.1 p g).1;
                                before = found.1;
                                reached = refl;
                                written = refl;
                              },
                            ))
                    ]
              ]
        ]
      ]

  -- A source that has a token and no character.
  abbrev bare : Source → OauthToken → Source
  bare o t = record o { token = some t; character = none }

  bare-faults :
      (o : Source) (s : State) (t l : OauthToken)
      → (refreshed t s).0 ≡ ok l
      → t.refresh_token ≢ l.refresh_token
      → (get_token w sso cfg (bare o t, s)).0 ≡ err fault
  unfolding get_token load_token refresh_held store_refresh_token on_character
  bare-faults o s t l answered rotated =
      let s' = (refreshed t s).1 in
      let refresh : refresh_held w sso cfg t (bare o t, s) ≡ (ok l, (bare o t, s')) =
        rw (answered, refresh_held) refl in
      let other : str_eq t.refresh_token l.refresh_token ≡ false =
        elim (Bool-cases (str_eq t.refresh_token l.refresh_token)) [
          | inl same ↦ absurd (rotated ((eq_iff t.refresh_token l.refresh_token).0 same))
          | inr differ ↦ differ
        ] in
      let store : store_refresh_token w sso cfg t l (bare o t, s') ≡ (err fault, (bare o t, s')) =
        rw other refl in
      ap (λ out. out.0)
        (bind-ok (refresh_held w sso cfg t)
            (λ l. store_refresh_token w sso cfg t l >>= λ _. store_access_token w sso cfg t l)
            (bare o t, s) l (bare o t, s') refresh
          ∙ bind-err (store_refresh_token w sso cfg t l) (λ _. store_access_token w sso cfg t l)
              (bare o t, s') fault (bare o t, s') store)

  -- A Token after a successful Save on a source that had no character yet is a nil dereference, whenever
  -- the SSO answers the saved token with one that has another refresh token.
  pub save_then_token_faults :
      (o : Source) (s : State) (t l : OauthToken) (reference_data : Option Value)
      → o.character ≡ none
      → (save w sso cfg t reference_data (o, s)).0 ≡ ok tt
      → let r = (save w sso cfg t reference_data (o, s)).1 in
        (refreshed t r.1).0 ≡ ok l
        → t.refresh_token ≢ l.refresh_token
        → (get_token w sso cfg r).0 ≡ err fault
  save_then_token_faults o s t l reference_data nil saved answered rotated =
      let r = (save w sso cfg t reference_data (o, s)).1 in
      let (held, _) = save_sound o s t reference_data saved in
      let same : r ≡ (bare o t, r.1) =
        ap (λ x. (x, r.1)) (held ∙ ap (λ c. record o { token = some t; character = c }) nil) in
      rw same (bare-faults o r.1 t l answered rotated)
