-- ===== src/Callback/Agreement.antt =====
-- The two copies of the handler compared.
use evesso.Prelude.{◌-◌, ◌≡◌, refl, String, Bool, true, false, ltb, if◌then◌else◌}
use evesso.Exec.{Error, Result, ok, err}
use evesso.World.{World}
use evesso.Store.Base.{five_minutes}
use evesso.Store.Pkces.{find_pkce, pkce_profile, destroy, stored_value}
use evesso.Store.Characters.{create_character}
use evesso.Claims.{new_character_claims}
use evesso.Sso.{Sso, AppConfig}
use evesso.Callback.{Response, attempt, verify, serve_http, handle_localhost}

-- Attempts that answer differently, and go on to the same state, leave the same state.
attempt-state :
    {S A : Type 0} (f g : Error → Response) (r : Result A × S) (k l : A → S → Response × S)
    → ((a : A) → (k a r.1).1 ≡ (l a r.1).1)
    → (attempt f r k).1 ≡ (attempt g r l).1
attempt-state f g (ok a, s) k l h = h a
attempt-state f g (err e, s) k l h = refl

if-state :
    {S : Type 0} (x y : Response) (b : Bool) (s : S) (p q : Response × S)
    → p.1 ≡ q.1
    → (if b then (x, s) else p).1 ≡ (if b then (y, s) else q).1
if-state x y true s p q h = refl
if-state x y false s p q h = h

module _ (w : World) (sso : Sso w) (cfg : AppConfig) where
  open w use {State, clock}
  open sso use {exchange, parse_uuid}

  pub serve_http-eq-handle_localhost :
      (code state : String) (s : State)
      → (serve_http w sso cfg code state s).1 ≡ (handle_localhost w sso cfg code state s).1
  unfolding serve_http handle_localhost
  serve_http-eq-handle_localhost code state s =
      attempt-state _ _ (parse_uuid state, s) _ _
        λ id. attempt-state _ _ (find_pkce w id s) _ _ λ k.
          let s1 = (find_pkce w id s).1 in
          attempt-state _ _ (pkce_profile w k s1) _ _ λ p.
            let s2 = (pkce_profile w k s1).1 in
            attempt-state _ _ (destroy w k s2) _ _ λ done.
              let s3 = (destroy w k s2).1 in
              if-state _ _ (ltb five_minutes (clock s3 - k.created_at)) s3 _ _ (
                attempt-state _ _ (exchange code k.code_verifier s3) _ _ λ token.
                  let s4 = (exchange code k.code_verifier s3).1 in
                  attempt-state _ _ (verify w sso cfg token.access_token s4) _ _ λ jt.
                    let s5 = (verify w sso cfg token.access_token s4).1 in
                    attempt-state _ _ (new_character_claims jt, s5) _ _
                      λ claims.
                        attempt-state _ _
                          (create_character w p claims token (stored_value w k.reference_data) s5) _
                          _ λ c. refl)
