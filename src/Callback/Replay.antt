-- ===== src/Callback/Replay.antt =====
-- What a request leaves of the state that it found.
use evesso.Prelude.{
  ◌+◌, ◌-◌, ◌≡◌, ◌≢◌, refl, ap, ◌∙◌, ◌==◌, ==_iff, not, String, true, [], ◌∷◌, ltb, arith, inl, inr,
  All, All-both, All-filter, filter-All, All-Any, Any, alone_of_key, filter, Option, Bool-cases,
}
use evesso.Exec.{ok, Result-cases, ◌>>=◌}
use evesso.Sql.{Uuid, Pkce, PkceCond, Profile, Kind, Tables, run, delete_pkces, upsert_character}
use evesso.Sql.Schema.{PkceDiffers, IsConsistent}
use evesso.World.{World}
use evesso.Store.Base.{five_minutes, one_second, OauthToken, CharacterClaims}
use evesso.Store.Query.Outcome.{query_nil-tables, query_struct-tables}
use evesso.Store.Pkces.{find_pkce, pkce_profile, destroy, clean_pkce, stored_value}
use evesso.Store.Pkces.Expiry.{find_pkce_sound, find_pkce-tables, without_pkce}
use evesso.Store.Profiles.Reading.{get_profile-tables}
use evesso.Store.Characters.{create_character, new_values}
use evesso.Claims.{new_character_claims}
use evesso.Sso.{Sso, AppConfig}
use evesso.Callback.{Response, attempt-elim, if-elim, verify, serve_http}
use evesso.Callback.Identity.{verify-tables, after_destroy}

module _ (w : World) where
  open w use {State, tables, clock, served, fresh, marshal, Value}

  -- CreateCharacter writes no PKCE row.
  pub create_character-pkces :
      (p : Profile) (claims : CharacterClaims) (token : OauthToken) (value : Option Value)
      (s : State)
      → (tables (create_character w p claims token value s).1).pkces ≡ (tables s).pkces
  unfolding create_character run
  create_character-pkces p claims token value s = elim (Result-cases (marshal value)) [
    | inr (e, failed) ↦ rw (failed, ◌>>=◌) refl
    | inl (text, read) ↦
        let values = new_values w p claims token text (clock s) in
        let st = upsert_character values in
        let after = query_struct-tables w Kind.new_id st s in
        rw (read, ◌>>=◌) (ground (arith, after))
  ]

  -- CleanPKCE only deletes.
  pub clean_pkce-All :
      (P : Pkce → Type 0) (s : State)
      → All P (tables s).pkces
      → All P (tables (clean_pkce w s).1).pkces
  unfolding clean_pkce run
  clean_pkce-All P s h =
      let st =
        delete_pkces (PkceCond.created_before (clock s - (five_minutes + one_second)) ∷ []) in
      let after = query_nil-tables w Kind.nothing st s refl in
      elim (Bool-cases (served s)) [
        | inr down ↦ rw (after, down) h
        | inl up ↦ rw (after, up, run) (All-filter P _ (tables s).pkces h)
      ]

  -- Without the row of a PKCE, no row has its state.
  without_pkce-state :
      (k : Pkce) (t : Tables)
      → IsConsistent t
      → Any (λ r. k ≡ r) t.pkces
      → All (λ r. r.state ≢ k.state) (without_pkce w k.id t).pkces
  without_pkce-state k t h there =
      let own =
        alone_of_key (λ (r : Pkce). r.state) PkceDiffers (λ x y d. d.1) k t.pkces h.pkce_keys
          there in
      All-both (λ r. r.state ≡ k.state → r ≡ k) (λ r. not (r.id == k.id) ≡ true)
        (λ r. r.state ≢ k.state)
        (λ r one other same. cc ((==_iff r.id k.id).1 (ap (λ (x : Pkce). x.id) (one same)), other))
        (filter (λ r. not (r.id == k.id)) t.pkces)
        (All-filter (λ r. r.state ≡ k.state → r ≡ k) (λ r. not (r.id == k.id)) t.pkces own)
        (filter-All (λ r. not (r.id == k.id)) t.pkces)

module _ (w : World) (sso : Sso w) (cfg : AppConfig) where
  open w use {State, tables, clock}
  open sso use {exchange, exchange-tables, parse_uuid}

  -- No PKCE row has the state that the text names.
  abbrev IsUsed : String → State → Type 0
  IsUsed state s =
      (id : Uuid) → parse_uuid state ≡ ok id → All (λ (r : Pkce). r.state ≢ id) (tables s).pkces

  abbrev WasUsed : String → Response × State → Type 0
  WasUsed state out = out.0 ≢ Response.discarded → IsUsed state out.1

  serve_http-IsUsed :
      (code state : String) (s : State)
      → IsConsistent (tables s)
      → WasUsed state (serve_http w sso cfg code state s)
  unfolding serve_http pkce_profile
  serve_http-IsUsed code state s h =
      let P = WasUsed state in
      attempt-elim P _ (parse_uuid state, s) _ (λ e f n. absurd (n refl))
        λ id parsed.
          attempt-elim P _ (find_pkce w id s) _ (λ e f n. absurd (n refl))
            λ k found.
              let s1 = (find_pkce w id s).1 in
              attempt-elim P _ (pkce_profile w k s1) _ (λ e f n. absurd (n refl))
                λ p owner.
                  let s2 = (pkce_profile w k s1).1 in
                  let same2 = get_profile-tables w k.profile_ref s1 ∙ find_pkce-tables w id s in
                  attempt-elim P _ (destroy w k s2) _ (λ e f n. absurd (n refl))
                    λ done done_ok.
                      let s3 = (destroy w k s2).1 in
                      let (there, right, _) = find_pkce_sound w id s k found in
                      let used : (t : State)
                          → (tables t).pkces ≡ (tables s3).pkces
                          → IsUsed state t =
                        λ t same other parsed'.
                          let gone = after_destroy w sso cfg k s s2 same2 done_ok in
                          let none_left = without_pkce-state w k (tables s) h there in
                          let to : k.state ≡ other = cc (right, parsed, parsed') in
                          rw (same, ap (λ t. t.pkces) gone, ← to) none_left in
                      if-elim P (ltb five_minutes (clock s3 - k.created_at)) _ _
                        (λ late n. used s3 refl)
                        λ early.
                          let s4 = (exchange code k.code_verifier s3).1 in
                          let same4 = ap (λ t. t.pkces) (exchange-tables code k.code_verifier s3) in
                          attempt-elim P _ (exchange code k.code_verifier s3) _
                            (λ e f n. used s4 same4)
                            λ token exchanged.
                              let s5 = (verify w sso cfg token.access_token s4).1 in
                              let same5 =
                                ap (λ t. t.pkces) (verify-tables w sso cfg token.access_token s4)
                                ∙ same4 in
                              attempt-elim P _ (verify w sso cfg token.access_token s4) _
                                (λ e f n. used s5 same5)
                                λ jt verified.
                                  attempt-elim P _ (new_character_claims jt, s5) _
                                    (λ e f n. used s5 same5)
                                    λ claims read.
                                      let value = stored_value w k.reference_data in
                                      let s6 = (create_character w p claims token value s5).1 in
                                      let same6 =
                                        create_character-pkces w p claims token value s5 ∙ same5 in
                                      attempt-elim P _ (create_character w p claims token value s5)
                                        _ (λ e f n. used s6 same6)
                                        λ c stored. λ n other parsed'.
                                          clean_pkce-All w (λ r. r.state ≢ other) s6
                                            (used s6 same6 other parsed')

  -- If the answer to a request is anything but a silent discard, then a later request with the same state
  -- and whatever code, on the tables that the first has left, is discarded and changes no table.
  pub replay_discarded :
      (code state : String) (s t : State) (later_code : String)
      → IsConsistent (tables s)
      → (serve_http w sso cfg code state s).0 ≢ Response.discarded
      → tables t ≡ tables (serve_http w sso cfg code state s).1
      → ((serve_http w sso cfg later_code state t).0 ≡ Response.discarded)
        × (tables (serve_http w sso cfg later_code state t).1 ≡ tables t)
  unfolding serve_http
  replay_discarded code state s t later_code h answered same =
      let used = serve_http-IsUsed code state s h answered in
      let P =
        λ (out : Response × State). (out.0 ≡ Response.discarded) × (tables out.1 ≡ tables t) in
      attempt-elim P _ (parse_uuid state, t) _ (λ e f. (refl, refl))
        λ id parsed.
          attempt-elim P _ (find_pkce w id t) _ (λ e f. (refl, find_pkce-tables w id t))
            λ k found.
              let (there, right, _) = find_pkce_sound w id t k found in
              absurd (
                All-Any (λ (r : Pkce). r.state ≢ id) (λ r. k ≡ r) (tables t).pkces
                  (rw same (used id parsed)) there (λ r other eq. other (rw (← eq) right)))
