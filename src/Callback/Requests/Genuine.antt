-- ===== src/Callback/Requests/Genuine.antt =====
-- The stored characters while requests interleave.
use evesso.Prelude.{
  arith, ◌+◌, ◌≤◌, ◌++◌, ◌∙◌, ℕ, zero, suc, ◌-◌, ◌≡◌, refl, sym, ap, String, ℤ, Option, List, [],
  ◌∷◌, ltb, inl, inr, ◌⊎◌, ◌==◌, Bool-cases, All, Any, All-imp, All-map,
}
use mathlib.Core.Path.{subst}
use evesso.Exec.{Error, Result, ok, err}
use evesso.Sql.{Uuid, Strings, Profile, Pkce, Character}
use evesso.World.{World}
use evesso.Store.Base.{five_minutes, CharacterClaims, OauthToken}
use evesso.Store.Pkces.{find_pkce, pkce_profile, destroy, clean_pkce, stored_value}
use evesso.Store.Pkces.Expiry.{find_pkce-tables, find_pkce_sound}
use evesso.Store.Profiles.Reading.{get_profile-tables, get_profile_sound}
use evesso.Store.Characters.{create_character}
use evesso.Store.Characters.Upsert.{refreshed_row}
use evesso.Store.Characters.Written.{create_character-Upserted}
use evesso.Claims.{Jwt, new_character_claims}
use evesso.Sso.{Sso, AppConfig}
use evesso.Callback.Requests.History.{IsChecked, Knows}
use evesso.Callback.{Response, verify}
use evesso.Callback.Identity.{
  verify-tables, verify-IsAccepted, destroy-characters, clean_pkce-characters,
}
use evesso.Callback.Requests.{Phase, proceed, Request, advance, advance_at, interleaved}

-- The columns that say whose grant a row is
pub record Grant : Type 0 where
  pub id : Uuid
  pub profile_ref : Uuid
  pub character_id : ℤ
  pub character_name : String
  pub owner : String
  pub scopes : Strings

abbrev pub grant_of : Character → Grant
grant_of c = record {
  id = c.id;
  profile_ref = c.profile_ref;
  character_id = c.character_id;
  character_name = c.character_name;
  owner = c.owner;
  scopes = c.scopes;
}

grant_of-refreshed :
    (id : Uuid) (refresh_token : String) (c : Character)
    → grant_of (refreshed_row id refresh_token c) ≡ grant_of c
grant_of-refreshed id refresh_token c = elim (Bool-cases (c.id == id)) [
  | inr other ↦ rw other refl
  | inl same ↦ rw same refl
]

module _ (w : World) (sso : Sso w) (cfg : AppConfig) (before : List Character)
    (Asked : String → String → Type 0) (Occurs : w.State → Type 0) where
  open w use {State, tables, clock}
  open sso use {exchange, exchange-tables, parse_uuid}

  -- A grant of the claims of a token that one of the requests got and checked, for the profile of the PKCE
  -- that it used up
  pub record OfToken (g : Grant) : Type 0 where
    pub code : String
    pub state : String
    pub asked : Asked code state
    pub pkce : Pkce
    pub token : OauthToken
    pub jwt : Jwt
    pub claims : CharacterClaims
    pub checked : IsChecked w sso cfg Occurs code state pkce token jwt
    pub read : new_character_claims jwt ≡ ok claims
    pub profile_ref : g.profile_ref ≡ pkce.profile_ref
    pub character_id : g.character_id ≡ claims.character_id
    pub character_name : g.character_name ≡ claims.character_name
    pub owner : g.owner ≡ claims.owner
    pub scopes : g.scopes ≡ claims.scopes

  -- The row has the grant of a row that there was before, or one of an accepted token.
  abbrev pub IsGenuine : Character → Type 0
  IsGenuine c = Any (λ d. grant_of c ≡ grant_of d) before ⊎ OfToken (grant_of c)

  abbrev Knowing : String → String → Phase → Type 0
  Knowing = Knows w sso cfg Occurs

  abbrev Genuine : State → Type 0
  Genuine s = All IsGenuine (tables s).characters

  refreshed-IsGenuine :
      (id : Uuid) (refresh_token : String) (c : Character)
      → IsGenuine c
      → IsGenuine (refreshed_row id refresh_token c)
  refreshed-IsGenuine id refresh_token c g =
      subst (λ x. Any (λ d. x ≡ grant_of d) before ⊎ OfToken x)
        (sym (grant_of-refreshed id refresh_token c)) g

  created-Genuine :
      (code state : String) (k : Pkce) (p : Profile) (claims : CharacterClaims) (token : OauthToken)
      (value : Option w.Value) (jt : Jwt) (s : State)
      → Asked code state
      → IsChecked w sso cfg Occurs code state k token jt
      → p.id ≡ k.profile_ref
      → new_character_claims jt ≡ ok claims
      → Genuine s
      → Genuine (create_character w p claims token value s).1
  created-Genuine code state k p claims token value jt s asked checked owner read g =
      let rows = (tables s).characters in
      let (text, now, changed) = create_character-Upserted w p claims token value s in
      elim changed [
        | inl same ↦ rw same g
        | inr more ↦ elim more [
          | inr (id, same) ↦ rw same (
              All-map IsGenuine (refreshed_row id token.refresh_token) rows
                (All-imp IsGenuine _ (refreshed-IsGenuine id token.refresh_token) rows g))
          | inl (id, same) ↦ rw same (
            inr (record {
              code = code;
              state = state;
              asked = asked;
              pkce = k;
              token = token;
              jwt = jt;
              claims = claims;
              checked = checked;
              read = read;
              profile_ref = owner;
              character_id = refl;
              character_name = refl;
              owner = refl;
              scopes = refl;
            }),
            g,
          )
        ]
      ]

  -- A call that leaves the characters as they are, with an outcome of which something is known
  proceed-keeps :
      {A : Type 0} (code state : String) (answer : Error → Response) (next : A → Phase)
      (r : Result A × State)
      → Genuine r.1
      → ((a : A) → r.0 ≡ ok a → Knowing code state (next a))
      → Knowing code state (proceed answer next r).0 × Genuine (proceed answer next r).1
  proceed-keeps code state answer next (ok a, s) g k = (k a refl, g)
  proceed-keeps code state answer next (err e, s) g k = (tt, g)

  unchanged :
      (s s' : State) → (tables s').characters ≡ (tables s).characters → Genuine s → Genuine s'
  unchanged s s' same g = rw same g

  advance-Genuine :
      (code state : String) (phase : Phase) (s : State)
      → Asked code state
      → Occurs s
      → Knowing code state phase
      → Genuine s
      → Knowing code state (advance w sso cfg code state phase s).0
        × Genuine (advance w sso cfg code state phase s).1
  unfolding advance pkce_profile
  advance-Genuine code state Phase.parsing s asked now k g =
      proceed-keeps code state _ _ (parse_uuid state, s) g (λ id e. e)
  advance-Genuine code state (Phase.finding id) s asked now parsed g =
      proceed-keeps code state _ _ (find_pkce w id s)
        (unchanged s (find_pkce w id s).1 (ap (λ t. t.characters) (find_pkce-tables w id s)) g)
        (λ k e.
          let (there, right, young) = find_pkce_sound w id s k e in
          record {
            at = s;
            occurs = now;
            parsed = parsed ∙ ap ok (sym right);
            there = there;
            young = young;
          })
  advance-Genuine code state (Phase.reading k) s asked now found g =
      proceed-keeps code state _ _ (pkce_profile w k s)
        (unchanged s (pkce_profile w k s).1
          (ap (λ t. t.characters) (get_profile-tables w k.profile_ref s)) g)
        (λ p e. (found, (get_profile_sound w k.profile_ref s p e).1))
  advance-Genuine code state (Phase.destroying k p) s asked now (found, owner) g =
      proceed-keeps code state _ _ (destroy w k s)
        (unchanged s (destroy w k s).1 (destroy-characters w sso cfg k s) g)
        (λ done e. (record { is_found = found; at = s; occurs = now; used = e }, owner))
  advance-Genuine code state (Phase.timing k p) s asked now (used, owner) g =
      elim (Bool-cases (ltb five_minutes (clock s - k.created_at))) [
        | inl late ↦ rw late (tt, g)
        | inr early ↦
            let in_time : clock s ≤ k.created_at + five_minutes = ground (arith, early) in
            rw early ((record { is_used = used; at = s; occurs = now; young = in_time }, owner), g)
      ]
  advance-Genuine code state (Phase.exchanging k p) s asked now (young, owner) g =
      proceed-keeps code state _ _ (exchange code k.code_verifier s)
        (unchanged s (exchange code k.code_verifier s).1
          (ap (λ t. t.characters) (exchange-tables code k.code_verifier s)) g)
        (λ token e. (record { is_young = young; at = s; occurs = now; exchanged = e }, owner))
  advance-Genuine code state (Phase.verifying k p token) s asked now (exchanged, owner) g =
      proceed-keeps code state _ _ (verify w sso cfg token.access_token s)
        (unchanged s (verify w sso cfg token.access_token s).1
          (ap (λ t. t.characters) (verify-tables w sso cfg token.access_token s)) g)
        (λ jt e. (
          record {
            is_exchanged = exchanged;
            at = s;
            occurs = now;
            accepted = verify-IsAccepted w sso cfg token.access_token s jt e;
          },
          owner,
        ))
  advance-Genuine code state (Phase.claiming k p token jt) s asked now (checked, owner) g =
      proceed-keeps code state _ _ (new_character_claims jt, s) g
        (λ claims e. (jt, checked, owner, e))
  advance-Genuine code state (Phase.creating k p token claims) s asked now
        (jt, checked, owner, read) g =
      proceed-keeps code state _ _
        (create_character w p claims token (stored_value w k.reference_data) s)
        (created-Genuine code state k p claims token (stored_value w k.reference_data) jt s asked
          checked owner read g)
        (λ a e. tt)
  advance-Genuine code state Phase.cleaning s asked now k g =
      (tt, unchanged s (clean_pkce w s).1 (clean_pkce-characters w sso cfg s) g)
  advance-Genuine code state (Phase.answered r) s asked now k g = (tt, g)

  abbrev pub KnowsAll : List Request → Type 0
  KnowsAll = All (λ q. Asked q.code q.state × Knowing q.code q.state q.phase)

  advance_at-Genuine :
      (n : ℕ) (qs : List Request) (s : State)
      → Occurs s
      → KnowsAll qs
      → Genuine s
      → KnowsAll (advance_at w sso cfg n (qs, s)).0 × Genuine (advance_at w sso cfg n (qs, s)).1
  advance_at-Genuine n [] s now k g = (tt, g)
  advance_at-Genuine zero (q ∷ qs) s now k g =
      let (known, kept) = advance-Genuine q.code q.state q.phase s k.0.0 now k.0.1 g in
      (((k.0.0, known), k.1), kept)
  advance_at-Genuine (suc n) (q ∷ qs) s now k g =
      let (known, kept) = advance_at-Genuine n qs s now k.1 g in ((k.0, known), kept)

  pub interleaved-Genuine :
      (ns : List ℕ) (r : List Request × State)
      → ((turns rest : List ℕ) → ns ≡ turns ++ rest → Occurs (interleaved w sso cfg turns r).1)
      → KnowsAll r.0
      → Genuine r.1
      → Genuine (interleaved w sso cfg ns r).1
  interleaved-Genuine [] r all k g = g
  interleaved-Genuine (n ∷ ns) r all k g =
      let (known, kept) = advance_at-Genuine n r.0 r.1 (all [] (n ∷ ns) refl) k g in
      interleaved-Genuine ns (advance_at w sso cfg n r)
        (λ turns rest e. all (n ∷ turns) rest (ap (λ l. n ∷ l) e)) known kept
