-- ===== src/TokenSource/Refresh.antt =====
-- What ssoTokenSource.Token answers, holds and stores.
use evesso.Prelude.{
  ◌≡◌, refl, sym, ap, ◌∙◌, true, false, Option, some, arith, ◌⊎◌, inl, inr, str_eq, Bool-cases,
  Option-cases,
}
use evesso.Exec.{Error, Result, ok, err, Result-cases, bind-err, ◌>>=◌}
use evesso.Sql.{Character}
use evesso.World.{World}
use evesso.Store.Base.{OauthToken}
use evesso.Store.Characters.{token, update_access_token, update_refresh_token, update_active_state}
use evesso.Store.Characters.Tokens.{change, with_active, update_active_state_outcome}
use evesso.Claims.{Jwt}
use evesso.Sso.{Sso, AppConfig}
use evesso.Sso.Verify.{IsAccepted, lookup-IsAccepted}
use evesso.TokenSource.{
  Source, Run, on_character, validate, load_token, read_token, refresh_held, store_refresh_token,
  store_access_token, get_token, require_character, in_world,
}

module _ (w : World) (sso : Sso w) (cfg : AppConfig) where
  open w use {State, tables}
  open sso use {refreshed, is_retrieve_error}

  abbrev held_by : Run w sso cfg → Option OauthToken
  held_by (o, s) = o.token

  on_character-held :
      {A : Type 0} (m : Character → State → Result A × Character × State) (r : Run w sso cfg)
      → held_by (on_character w sso cfg m r).1 ≡ held_by r
  unfolding on_character
  on_character-held m (o, s) = elim (Option-cases o.character) [
    | inl e ↦ rw e refl
    | inr (c, e) ↦ rw e refl
  ]

  -- A token that is answered is the one that the source holds then.
  abbrev Holds : Result OauthToken × Run w sso cfg → Type 0
  Holds out = (t : OauthToken) → out.0 ≡ ok t → held_by out.1 ≡ some t

  read_token-held : (r : Run w sso cfg) → Holds (read_token w sso cfg r)
  unfolding read_token
  read_token-held r =
      let required = require_character w sso cfg r in
      elim (Result-cases required.0) [
        | inr (x, e) ↦ rw (e, ◌>>=◌) (λ t h. cc h)
        | inl (done, e) ↦ elim (Result-cases (on_character w sso cfg (token w) required.1).0) [
          | inr (x, f) ↦ rw (e, ◌>>=◌, f) (λ t h. cc h)
          | inl (loaded, f) ↦ rw (e, ◌>>=◌, f) (λ t h. ground (arith, h))
        ]
      ]

  load_token-held : (r : Run w sso cfg) → Holds (load_token w sso cfg r)
  unfolding load_token
  load_token-held (o, s) = elim (Option-cases o.token) [
    | inr (held, e) ↦ rw e (λ t h. ground (arith, h))
    | inl e ↦ rw e (read_token-held _)
  ]

  refresh_held-held :
      (held : OauthToken) (r : Run w sso cfg)
      → held_by (refresh_held w sso cfg held r).1 ≡ held_by r
  unfolding refresh_held
  refresh_held-held held (o, s) = ground arith

  store_refresh_token-held :
      (held l : OauthToken) (r : Run w sso cfg)
      → held_by (store_refresh_token w sso cfg held l r).1 ≡ held_by r
  unfolding store_refresh_token
  store_refresh_token-held held l r =
      elim (Bool-cases (str_eq held.refresh_token l.refresh_token)) [
        | inl e ↦ rw e refl
        | inr e ↦ rw e (on_character-held (λ c. update_refresh_token w c l.refresh_token) r)
      ]

  -- The token passes the checks of validateAccessToken in the state.
  abbrev pub Accepted : OauthToken → State → Type 0
  Accepted t s = (jt : Jwt) × IsAccepted w sso s cfg.key t.access_token jt

  pub validate_sound :
      (t : OauthToken) (s : State) (jt : Jwt)
      → (validate w sso cfg t s).0 ≡ ok jt
      → IsAccepted w sso s cfg.key t.access_token jt
  unfolding validate
  validate_sound t s jt h = lookup-IsAccepted w sso cfg.key t.access_token jt s h

  store_access_token_sound :
      (held l : OauthToken) (r : Run w sso cfg)
      → held_by r ≡ some held
      → (t : OauthToken) → (store_access_token w sso cfg held l r).0 ≡ ok t
      → (held_by (store_access_token w sso cfg held l r).1 ≡ some t)
        × ((t ≡ held) ⊎ ((t ≡ l) × Accepted t r.1))
  unfolding store_access_token
  store_access_token_sound held l (o, s) before =
      let update = λ (c : Character). update_access_token w c l.access_token in
      let checked = in_world w sso cfg (validate w sso cfg l) (o, s) in
      elim (Bool-cases (str_eq held.access_token l.access_token)) [
        | inl same ↦
            rw same
              (λ t h. let eq : held ≡ t = ground (arith, h) in (before ∙ ap some eq, inl (sym eq)))
        | inr other ↦ elim (Result-cases checked.0) [
          | inr (x, e) ↦ rw (other, e, ◌>>=◌) (λ t h. cc h)
          | inl (jt, e) ↦ elim (Result-cases (on_character w sso cfg update checked.1).0) [
            | inr (x, f) ↦ rw (other, e, ◌>>=◌, f) (λ t h. cc h)
            | inl (done, f) ↦
                rw (other, e, ◌>>=◌, f)
                  (λ t h.
                    let eq : l ≡ t = ground (arith, h) in
                    (ap some eq, inr (sym eq, rw (← eq) (jt, validate_sound l s jt e))))
          ]
        ]
      ]

  refresh_held-answered :
      (held l : OauthToken) (r : Run w sso cfg)
      → (refresh_held w sso cfg held r).0 ≡ ok l
      → (refreshed held r.1).0 ≡ ok l
  unfolding refresh_held
  refresh_held-answered held l (o, s) h = ground (arith, h)

  -- The token was refreshed, and accepted in the state in which its refresh token had been stored.
  pub record IsRefreshed (r : Run w sso cfg) (t : OauthToken) : Type 0 where
    pub held : OauthToken
    pub loaded : (load_token w sso cfg r).0 ≡ ok held
    pub answered : (refreshed held (load_token w sso cfg r).1.1).0 ≡ ok t
    pub accepted :
        Accepted t
          (store_refresh_token w sso cfg held t
            (refresh_held w sso cfg held (load_token w sso cfg r).1).1).1.1

  -- A token that Token answers is the one that the source holds afterwards. Either it is the token that
  -- the source had or read from the store, or the token endpoint answered it and it passed the checks of
  -- validateAccessToken in the state in which it was verified: signed by a key that the cache then held
  -- for the URI of the SSO, within its times, issued by the SSO, for EVE Online and for this client.
  pub get_token_sound :
      (r : Run w sso cfg) (t : OauthToken)
      → (get_token w sso cfg r).0 ≡ ok t
      → (held_by (get_token w sso cfg r).1 ≡ some t)
        × (((load_token w sso cfg r).0 ≡ ok t) ⊎ IsRefreshed r t)
  unfolding get_token
  get_token_sound r t =
      let loaded = load_token w sso cfg r in
      elim (Result-cases loaded.0) [
        | inr (x, e) ↦ rw (e, ◌>>=◌) (λ h. cc h)
        | inl (held, e) ↦
            let fresh = refresh_held w sso cfg held loaded.1 in
            elim (Result-cases fresh.0) [
              | inr (x, f) ↦ rw (e, ◌>>=◌, f) (λ h. cc h)
              | inl (l, f) ↦
                  let stored = store_refresh_token w sso cfg held l fresh.1 in
                  elim (Result-cases stored.0) [
                    | inr (x, g) ↦ rw (e, ◌>>=◌, f, g) (λ h. cc h)
                    | inl (done, g) ↦
                        rw (e, ◌>>=◌, f, g)
                          (λ h.
                            let same =
                              store_refresh_token-held held l fresh.1
                              ∙ refresh_held-held held loaded.1
                              ∙ load_token-held r held e in
                            let (now, which) = store_access_token_sound held l stored.1 same t h in
                            (
                              now,
                              elim which [
                                | inl eq ↦ inl (ap ok (sym eq))
                                | inr (eq, accepted) ↦ inr (record {
                                  held = held;
                                  loaded = e;
                                  answered =
                                      refresh_held-answered held l loaded.1 f ∙ ap ok (sym eq);
                                  accepted = rw eq (rw eq at accepted);
                                })
                              ],
                            ))
                  ]
            ]
      ]

  -- A source that has a token and its character.
  abbrev pub ready : Source → OauthToken → Character → Source
  ready o held c = record o { token = some held; character = some c }

  refresh_held-refused :
      (o : Source) (s : State) (held : OauthToken) (c : Character) (e : Error)
      → (refreshed held s).0 ≡ err e
      → is_retrieve_error e ≡ true
      → let (_, c', s') = update_active_state w c false (refreshed held s).1 in
        refresh_held w sso cfg held (ready o held c, s) ≡ (err e, (ready o held c', s'))
  unfolding refresh_held
  refresh_held-refused o s held c e refused refusal = rw (refused, refresh_held, refusal) refl

  -- If the SSO refuses the refresh token of a source that has its token and its character, Token fails with
  -- that error and the character is inactive, in the object and in its row alone; or that one update
  -- failed too, and object and tables are as before.
  pub get_token_deactivates :
      (o : Source) (s : State) (held : OauthToken) (c : Character) (e : Error)
      → (refreshed held s).0 ≡ err e
      → is_retrieve_error e ≡ true
      → let (reply, (o', s')) = get_token w sso cfg (ready o held c, s) in
        (reply ≡ err e)
        × (((o' ≡ ready o held (with_active false c))
              × (tables s'
                  ≡ change c.id (with_active false) (w.clock (refreshed held s).1) (tables s)))
            ⊎ ((o' ≡ ready o held c) × (tables s' ≡ tables s)))
  unfolding get_token load_token
  get_token_deactivates o s held c e refused refusal =
      let same = sso.refreshed-tables held s in
      let now = w.clock (refreshed held s).1 in
      let out = update_active_state w c false (refreshed held s).1 in
      let failed : get_token w sso cfg (ready o held c, s) ≡ (err e, (ready o held out.1, out.2)) =
        bind-err (refresh_held w sso cfg held)
          (λ l. store_refresh_token w sso cfg held l >>= λ _. store_access_token w sso cfg held l)
          (ready o held c, s) e (ready o held out.1, out.2)
          (refresh_held-refused o s held c e refused refusal) in
      rw failed (
        refl,
        elim (update_active_state_outcome w c (refreshed held s).1 false) [
          | inl (_, object, row) ↦
              inl (ap (ready o held) object, row ∙ ap (change c.id (with_active false) now) same)
          | inr (_, object, row) ↦ inr (ap (ready o held) object, row ∙ same)
        ],
      )
