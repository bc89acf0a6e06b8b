-- ===== src/TokenSource/Authorized.antt =====
-- A token source after the first authorization for its profile.
use evesso.Prelude.{◌≡◌, refl, ap, ◌∙◌, String, true, some, pos, arith, All, Any}
use evesso.Exec.{bind-ok, pure, Exec, Result, Done, ok, err, ◌>>=◌}
use evesso.Sql.{Uuid, Strings, Profile, Character, Kind, run}
use evesso.Sql.Schema.{IsConsistent, RefersTo}
use evesso.World.{World}
use evesso.Store.Base.{OauthToken}
use evesso.Store.Query.Outcome.{query_struct-tables}
use evesso.Store.Profiles.{get_profile, find_character}
use evesso.Store.Profiles.Lookup.{Fits, find_character_iff}
use evesso.Store.Profiles.Reading.{get_profile-tables, get_profile_complete}
use evesso.Store.Characters.{token, stored_token}
use evesso.Store.Characters.Reading.{token_complete}
use evesso.Sso.{Sso, AppConfig}
use evesso.TokenSource.{
  Source, token_source, load_token, read_token, require_character, get_character, on_character,
  set_token,
}

module _ (w : World) (sso : Sso w) (cfg : AppConfig) (id : Uuid) (name : String)
    (scopes : Strings) where
  open w use {State, tables, served, clock}

  abbrev source : Source
  source = token_source id name scopes

  -- The state after the lookup of the profile, and the one after that of the character
  abbrev pub after_profile : State → State
  after_profile s = (get_profile w id s).1

  abbrev pub after_character : State → State
  after_character s = (get_character w sso cfg (source, s)).1.1

  find_character-tables :
      (p : Profile) (s : State) → tables (find_character w p (pos 0) name "" scopes s).1 ≡ tables s
  unfolding find_character run
  find_character-tables p s = query_struct-tables w Kind.characters _ s ∙ ground arith

  get_character_complete :
      (s : State) (c : Character)
      → IsConsistent (tables s)
      → RefersTo id (tables s).profiles
      → Any (λ d. c ≡ d) (tables s).characters
      → ((p : Profile)
          → p.id ≡ id
          → Fits p (pos 0) name "" scopes c
            × All (λ d. Fits p (pos 0) name "" scopes d → d ≡ c) (tables s).characters)
      → served s ≡ true
      → served (after_profile s) ≡ true
      → (get_character w sso cfg (source, s) ≡ (ok c, (source, after_character s)))
        × (tables (after_character s) ≡ tables s)
  unfolding get_character
  get_character_complete s c h known there only up0 up1 =
      let (p, got, same_id) = get_profile_complete w id s up0 h known in
      let same = get_profile-tables w id s in
      let (fits, alone) = only p same_id in
      let found =
        (find_character_iff w p (pos 0) name "" scopes (after_profile s) c up1 (rw same h)).1
          (rw same (there, fits, alone)) in
      let answer : (get_character w sso cfg (source, s)).0 ≡ ok c =
        rw (get_character, got, ◌>>=◌, found) refl in
      (
        ap (λ r. (r, (source, after_character s))) answer,
        rw (after_character, get_character, got, ◌>>=◌)
            (find_character-tables p (after_profile s) ∙ same),
      )

  abbrev holding : Character → Source
  holding c = record source { character = some c }

  require_character_complete :
      (s : State) (c : Character)
      → get_character w sso cfg (source, s) ≡ (ok c, (source, after_character s))
      → require_character w sso cfg (source, s) ≡ (ok tt, (holding c, after_character s))
  unfolding require_character
  require_character_complete s c got =
      ap
        (λ out. elim out.0 as (λ x. Result Done × (Source × State)) [
          | ok a ↦ (ok tt, (record out.1.0 { character = some a }, out.1.1))
          | err e ↦ (err e, out.1)
        ])
        got

  -- A source that holds neither a token nor a character reads the one character that fits.
  pub load_token_complete :
      (s : State) (c : Character)
      → IsConsistent (tables s)
      → RefersTo id (tables s).profiles
      → Any (λ d. c ≡ d) (tables s).characters
      → ((p : Profile)
          → p.id ≡ id
          → Fits p (pos 0) name "" scopes c
            × All (λ d. Fits p (pos 0) name "" scopes d → d ≡ c) (tables s).characters)
      → served s ≡ true
      → served (after_profile s) ≡ true
      → served (after_character s) ≡ true
      → (s' : State) × (load_token w sso cfg (source, s) ≡ (
        ok (stored_token w c.access_token c.refresh_token (clock s')),
        (
          record source {
            character = some c;
            token = some (stored_token w c.access_token c.refresh_token (clock s'));
          },
          s',
        ),
      ))
  unfolding load_token read_token require_character on_character
  load_token_complete s c h known there only up0 up1 up2 =
      let (got, same) = get_character_complete s c h known there only up0 up1 in
      let (s', answer) = token_complete w c (after_character s) up2 (rw same h) (rw same there) in
      let t = stored_token w c.access_token c.refresh_token (clock s') in
      let required = require_character_complete s c got in
      let loaded : on_character w sso cfg (token w) (holding c, after_character s)
          ≡ (ok t, (holding c, s')) =
        rw (on_character, answer) refl in
      let store : OauthToken → Exec (Source × State) OauthToken =
        λ u. set_token w sso cfg u >>= λ _. pure u in
      let read =
        bind-ok (require_character w sso cfg) (λ _. on_character w sso cfg (token w) >>= store)
          (source, s) tt (holding c, after_character s) required
        ∙ bind-ok (on_character w sso cfg (token w)) store (holding c, after_character s) t
            (holding c, s') loaded in
      (s', read)
