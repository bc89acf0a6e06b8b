-- ===== src/Callback/Keeps.antt =====
-- The constraints of the tables across a request.
use evesso.Prelude.{◌+◌, ◌-◌, refl, String, Option, [], ◌∷◌, ltb, inl, inr}
use evesso.Exec.{Result-cases, ◌>>=◌}
use evesso.Sql.{PkceCond, Profile, Kind, upsert_character, delete_pkces}
use evesso.Sql.Schema.{IsConsistent}
use evesso.World.{World}
use evesso.Store.Base.{five_minutes, one_second, OauthToken, CharacterClaims}
use evesso.Store.Query.{query_struct}
use evesso.Store.Query.Consistency.{query_struct-IsConsistent, query_nil-IsConsistent}
use evesso.Store.Pkces.{find_pkce, pkce_profile, destroy, clean_pkce, stored_value}
use evesso.Store.Pkces.Expiry.{find_pkce-tables}
use evesso.Store.Profiles.Reading.{get_profile-tables}
use evesso.Store.Characters.{create_character, new_values}
use evesso.Claims.{new_character_claims}
use evesso.Sso.{Sso, AppConfig}
use evesso.Callback.{Response, attempt-elim, if-elim, verify, serve_http}
use evesso.Callback.Identity.{verify-tables}

module _ (w : World) where
  open w use {State, tables, clock, marshal, Value}

  abbrev Holds : State → Type 0
  Holds s = IsConsistent (tables s)

  pub create_character-IsConsistent :
      (p : Profile) (claims : CharacterClaims) (token : OauthToken) (value : Option Value)
      (s : State)
      → Holds s
      → Holds (create_character w p claims token value s).1
  unfolding create_character
  create_character-IsConsistent p claims token value s h = elim (Result-cases (marshal value)) [
    | inr (e, failed) ↦ rw (failed, ◌>>=◌) h
    | inl (text, read) ↦
        let st = upsert_character (new_values w p claims token text (clock s)) in
        let after = query_struct-IsConsistent w Kind.new_id st s h in
        elim (Result-cases (query_struct w st s).0) [
          | inl (id, e) ↦ rw (read, ◌>>=◌, e) after
          | inr (f, e) ↦ rw (read, ◌>>=◌, e) after
        ]
  ]

module _ (w : World) (sso : Sso w) (cfg : AppConfig) where
  open w use {State, tables, clock}
  open sso use {exchange, exchange-tables, parse_uuid}

  -- A request to ServeHTTP, whatever its outcome, leaves tables that keep the constraints of the schema.
  pub serve_http-IsConsistent :
      (code state : String) (s : State)
      → IsConsistent (tables s)
      → IsConsistent (tables (serve_http w sso cfg code state s).1)
  unfolding serve_http pkce_profile destroy clean_pkce
  serve_http-IsConsistent code state s h =
      let P = λ (out : Response × State). IsConsistent (tables out.1) in
      attempt-elim P _ (parse_uuid state, s) _ (λ e f. h)
        λ id parsed.
          let h1 : P (Response.discarded, (find_pkce w id s).1) = rw (find_pkce-tables w id s) h in
          attempt-elim P _ (find_pkce w id s) _ (λ e f. h1)
            λ k found.
              let s1 = (find_pkce w id s).1 in
              let s2 = (pkce_profile w k s1).1 in
              let h2 : IsConsistent (tables s2) = rw (get_profile-tables w k.profile_ref s1) h1 in
              attempt-elim P _ (pkce_profile w k s1) _ (λ e f. h2)
                λ p owner.
                  let s3 = (destroy w k s2).1 in
                  let h3 =
                    query_nil-IsConsistent w Kind.nothing (delete_pkces (PkceCond.id_is k.id ∷ []))
                      s2 refl h2 in
                  attempt-elim P _ (destroy w k s2) _ (λ e f. h3)
                    λ done done_ok.
                      if-elim P (ltb five_minutes (clock s3 - k.created_at)) _ _ (λ late. h3)
                        λ early.
                          let s4 = (exchange code k.code_verifier s3).1 in
                          let h4 : IsConsistent (tables s4) =
                            rw (exchange-tables code k.code_verifier s3) h3 in
                          attempt-elim P _ (exchange code k.code_verifier s3) _ (λ e f. h4)
                            λ token exchanged.
                              let s5 = (verify w sso cfg token.access_token s4).1 in
                              let h5 : IsConsistent (tables s5) =
                                rw (verify-tables w sso cfg token.access_token s4) h4 in
                              attempt-elim P _ (verify w sso cfg token.access_token s4) _
                                (λ e f. h5)
                                λ jt verified.
                                  attempt-elim P _ (new_character_claims jt, s5) _ (λ e f. h5)
                                    λ claims read.
                                      let value = stored_value w k.reference_data in
                                      let s6 = (create_character w p claims token value s5).1 in
                                      let h6 =
                                        create_character-IsConsistent w p claims token value s5
                                          h5 in
                                      attempt-elim P _ (create_character w p claims token value s5)
                                        _ (λ e f. h6)
                                        λ c stored.
                                          query_nil-IsConsistent w Kind.nothing
                                            (delete_pkces (
                                              PkceCond.created_before
                                                (clock s6 - (five_minutes + one_second))
                                              ∷ []))
                                            s6 refl h6
