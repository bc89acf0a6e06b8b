-- ===== src/Callback/Requests/Sequential.antt =====
-- A request whose calls nothing interrupts.
use evesso.Prelude.{ℕ, zero, suc, ◌-◌, ◌≡◌, refl, String, true, false, ltb, if◌then◌else◌, Bool}
use evesso.Exec.{Error, Result, ok, err}
use evesso.World.{World}
use evesso.Store.Base.{five_minutes}
use evesso.Store.Pkces.{find_pkce, pkce_profile, destroy, stored_value}
use evesso.Store.Characters.{create_character}
use evesso.Claims.{new_character_claims}
use evesso.Sso.{Sso, AppConfig}
use evesso.Callback.{Response, attempt, verify, serve_http}
use evesso.Callback.Requests.{Phase, proceed, advance}

module _ (w : World) (sso : Sso w) (cfg : AppConfig) (code state : String) where
  open w use {State, clock}
  open sso use {exchange, parse_uuid}

  abbrev pub advanced : ℕ → Phase × State → Phase × State
  advanced zero r = r
  advanced (suc n) (phase, s) = advanced n (advance w sso cfg code state phase s)

  abbrev pub ended : Response × State → Phase × State
  ended (response, s) = (Phase.answered response, s)

  advanced-answered :
      (n : ℕ) (r : Response) (s : State) → advanced n (Phase.answered r, s) ≡ (Phase.answered r, s)
  unfolding advance
  advanced-answered zero r s = refl
  advanced-answered (suc n) r s = advanced-answered n r s

  -- A call that is followed by the steps of what follows it is an attempt.
  advanced-proceed :
      {A : Type 0} (n : ℕ) (answer : Error → Response) (next : A → Phase) (r : Result A × State)
      (k : A → State → Response × State)
      → ((a : A) → advanced n (next a, r.1) ≡ ended (k a r.1))
      → advanced n (proceed answer next r) ≡ ended (attempt answer r k)
  advanced-proceed n answer next (ok a, s) k h = h a
  advanced-proceed n answer next (err e, s) k h = advanced-answered n (answer e) s

  advanced_if :
      (n : ℕ) (b : Bool) (r : Response) (phase : Phase) (s : State) (out : Response × State)
      → advanced n (phase, s) ≡ ended out
      → advanced n (if b then (Phase.answered r, s) else (phase, s))
        ≡ ended (if b then (r, s) else out)
  advanced_if n true r phase s out h = advanced-answered n r s
  advanced_if n false r phase s out h = h

  -- Ten calls that nothing interrupts are ServeHTTP: they end with its response and in its state.
  pub serve_http-advanced :
      (s : State) → advanced 10 (Phase.parsing, s) ≡ ended (serve_http w sso cfg code state s)
  unfolding serve_http advance
  serve_http-advanced s =
      advanced-proceed 9 _ _ (parse_uuid state, s) _
        λ id. advanced-proceed 8 _ _ (find_pkce w id s) _ λ k.
          let s1 = (find_pkce w id s).1 in
          advanced-proceed 7 _ _ (pkce_profile w k s1) _ λ p.
            let s2 = (pkce_profile w k s1).1 in
            advanced-proceed 6 _ _ (destroy w k s2) _ λ done.
              let s3 = (destroy w k s2).1 in
              advanced_if 5 (ltb five_minutes (clock s3 - k.created_at)) _ _ s3 _ (
                advanced-proceed 4 _ _ (exchange code k.code_verifier s3) _ λ token.
                  let s4 = (exchange code k.code_verifier s3).1 in
                  advanced-proceed 3 _ _ (verify w sso cfg token.access_token s4) _ λ jt.
                    let s5 = (verify w sso cfg token.access_token s4).1 in
                    advanced-proceed 2 _ _ (new_character_claims jt, s5) _
                      λ claims.
                        advanced-proceed 1 _ _
                          (create_character w p claims token (stored_value w k.reference_data) s5) _
                          (λ c. refl))
