-- ===== src/Callback/Completes.antt =====
-- A request to ServeHTTP that nothing hinders.
use evesso.Prelude.{
  ◌+◌, ◌-◌, ◌≤◌, ◌<◌, ◌≡◌, ◌≢◌, refl, ◌∙◌, String, true, false, arith, ltb, All, Any, All-Any,
  Any-imp, [], ◌∷◌,
}
use evesso.Exec.{ok}
use evesso.Sql.{Profile, Character, Pkce, Kind, PkceCond, delete_pkces}
use evesso.Sql.Schema.{IsConsistent, RefersTo}
use evesso.World.{World}
use evesso.Store.Base.{five_minutes, CharacterClaims, OauthToken}
use evesso.Store.Query.Consistency.{query_nil-IsConsistent}
use evesso.Store.Pkces.{find_pkce, pkce_profile, destroy, clean_pkce, stored_value}
use evesso.Store.Pkces.Expiry.{find_pkce_complete, find_pkce-tables}
use evesso.Store.Profiles.Reading.{get_profile-tables, get_profile_complete}
use evesso.Store.Characters.{create_character, new_values}
use evesso.Store.Characters.Stored.{IsGrant, create_character_stored}
use evesso.Claims.{Jwt, new_character_claims}
use evesso.Sso.{Sso, AppConfig}
use evesso.Callback.{Response, attempt, verify, serve_http}
use evesso.Callback.Identity.{verify-tables, after_destroy, clean_pkce-characters}

module _ (w : World) (sso : Sso w) (cfg : AppConfig) where
  open w use {State, tables, clock, served, fresh, marshal}
  open sso use {exchange, exchange-tables, parse_uuid}

  destroy-IsConsistent :
      (k : Pkce) (s : State) → IsConsistent (tables s) → IsConsistent (tables (destroy w k s).1)
  unfolding destroy
  destroy-IsConsistent k s h =
      query_nil-IsConsistent w Kind.nothing (delete_pkces (PkceCond.id_is k.id ∷ [])) s refl h

  module _ (code state : String) (s : State) (k : Pkce) (token : OauthToken) where
    -- The states between the steps
    abbrev pub found_at : State
    found_at = (find_pkce w k.state s).1

    abbrev pub read_at : State
    read_at = (pkce_profile w k found_at).1

    abbrev pub used_at : State
    used_at = (destroy w k read_at).1

    abbrev pub exchanged_at : State
    exchanged_at = (exchange code k.code_verifier used_at).1

    abbrev pub verified_at : State
    verified_at = (verify w sso cfg token.access_token exchanged_at).1

    module _ (jt : Jwt) (claims : CharacterClaims) (reference : String)
        (h : IsConsistent (tables s)) (parsed : parse_uuid state ≡ ok k.state)
        (there : Any (λ r. k ≡ r) (tables s).pkces) (young : clock s - five_minutes < k.created_at)
        (up_find : served s ≡ true) (up_read : served found_at ≡ true)
        (used : (destroy w k read_at).0 ≡ ok tt)
        (early : clock used_at ≤ k.created_at + five_minutes)
        (exchanged : (exchange code k.code_verifier used_at).0 ≡ ok token)
        (verified : (verify w sso cfg token.access_token exchanged_at).0 ≡ ok jt)
        (read : new_character_claims jt ≡ ok claims)
        (readable : marshal (stored_value w k.reference_data) ≡ ok reference)
        (up_write : served verified_at ≡ true) where
      -- The request as far as CreateCharacter
      abbrev pub Reaches : Profile → Type 0
      Reaches p =
          (p.id ≡ k.profile_ref)
          × RefersTo p.id (tables verified_at).profiles
          × IsConsistent (tables verified_at)
          × ((tables verified_at).characters ≡ (tables s).characters)
          × ((c : Character)
              → (create_character w p claims token (stored_value w k.reference_data) verified_at).0
                ≡ ok c
              → serve_http w sso cfg code state s ≡ (
                Response.redirected cfg.redirect,
                (clean_pkce w
                    (create_character w p claims token (stored_value w k.reference_data)
                      verified_at).1).1,
              ))

      pub serve_http-Reaches : (p : Profile) × Reaches p
      unfolding serve_http pkce_profile
      serve_http-Reaches =
          let found = find_pkce_complete w s k up_find h there young in
          let same1 = find_pkce-tables w k.state s in
          let known : RefersTo k.profile_ref (tables s).profiles =
            All-Any (λ r. RefersTo r.profile_ref (tables s).profiles) (λ r. k ≡ r) (tables s).pkces
              h.pkce_refs there (λ r known e. rw e known) in
          let (p, owner, id) =
            get_profile_complete w k.profile_ref found_at up_read (rw same1 h) (rw same1 known) in
          let same2 = get_profile-tables w k.profile_ref found_at ∙ same1 in
          let gone = after_destroy w sso cfg k s read_at same2 used in
          let in_time : ltb five_minutes (clock used_at - k.created_at) ≡ false =
            ground (arith, early) in
          let same5 : tables verified_at ≡ tables used_at =
            verify-tables w sso cfg token.access_token exchanged_at
            ∙ exchange-tables code k.code_verifier used_at in
          let h3 : IsConsistent (tables used_at) = destroy-IsConsistent k read_at (rw same2 h) in
          (
            p,
            (
              id,
              rw (same5, gone, id) known,
              rw same5 h3,
              rw (same5, gone) refl,
              λ c stored.
                  rw
                    (
                      serve_http, attempt, parsed, found, owner, used, in_time, exchanged, verified,
                      read, stored,
                    )
                    refl,
            ),
          )

      -- On tables that keep their constraints: if a PKCE row younger than five minutes is stored under the
      -- state of the request, the database serves the two lookups, the deletion and the insertion, the
      -- five minutes have not passed either when the row has been deleted, the SSO exchanges the code, the
      -- token verifies and carries the claims, the reference data can be marshalled, and the id that the
      -- database makes is that of no character, then ServeHTTP redirects, and a grant for the profile of
      -- the PKCE row and these claims is stored with the refresh token.
      pub serve_http_completes :
          All (λ c. (fresh verified_at).0 ≢ c.id) (tables s).characters
          → let (response, s') = serve_http w sso cfg code state s in
            (response ≡ Response.redirected cfg.redirect)
            × Any
                (λ c.
                  (c.profile_ref ≡ k.profile_ref)
                  × (c.character_id ≡ claims.character_id)
                  × (c.character_name ≡ claims.character_name)
                  × (c.owner ≡ claims.owner)
                  × (c.scopes ≡ claims.scopes)
                  × (c.refresh_token ≡ token.refresh_token))
                (tables s').characters
      serve_http_completes new =
          let (p, (id, known, kept, same, ran)) = serve_http-Reaches in
          let (c, stored, granted) =
            create_character_stored w p claims token (stored_value w k.reference_data) reference
              verified_at readable up_write kept known (rw same new) in
          let s6 =
            (create_character w p claims token (stored_value w k.reference_data) verified_at).1 in
          let grants =
            Any-imp (IsGrant (new_values w p claims token reference (clock verified_at))) _
              (λ d g. (
                g.profile_ref ∙ id,
                g.character_id,
                g.character_name,
                g.owner,
                g.scopes,
                g.refresh_token,
              ))
              (tables s6).characters granted in
          rw (ran c stored) (refl, rw (clean_pkce-characters w sso cfg s6) grants)
