-- ===== src/Startup/Tokengen.antt =====
-- cmd/tokengen/main.go from FindProfile on, for an EVESSO that AutoConfig has returned. `localhost_auth`
-- is what LocalhostAuth returns and leaves.
use evesso.Prelude.{String, Bool, true, false, none, some, List, [], ◌∷◌, ◌++◌}
use evesso.Exec.{Error, fault, Done, Result, ok, err, Exec}
use evesso.Sql.{Profile, Character}
use evesso.World.{World}
use evesso.Store.Profiles.{find_profile, new_profile, all_profiles, all_characters}
use evesso.Store.Pkces.{clean_pkce}
use evesso.Sso.{Sso, AppConfig}
use evesso.TokenSource.{Source, token_source, character_source, valid, auth_url}
use evesso.Generator.Output.{all_scopes}

-- log.Fatalln, a panic, or a return
pub data Ending : Type 0 where
  fatal : Error → Ending
  panicked : Ending
  returned : Ending

-- A nil dereference on the way ends the program by itself.
abbrev pub stopped : Error → Ending
stopped fault = panicked
stopped e = fatal e

-- What fmt.Println printed
abbrev pub Lines : Type 0
Lines = List String

abbrev pub valid_line : Bool → String
valid_line true = "valid: true"
valid_line false = "valid: false"

module _ (w : World) (sso : Sso w) (cfg : AppConfig) where
  open w use {State, Value}

  -- Any error of FindProfile leads to NewProfile.
  unfoldable pub default_profile : Exec State Profile
  default_profile s =
      let (r, s') = find_profile w "default" s in
      elim r [ ok p ↦ (ok p, s') | err e ↦ new_profile w "default" none s' ]

  -- The inner loop; an error is a panic.
  abbrev pub check_characters : List Character → State → (Result Done × Lines) × State
  check_characters [] s = ((ok tt, []), s)
  check_characters (c ∷ cs) s =
      let (b, run) = valid w sso cfg (character_source c, s) in
      let (rest, s') = check_characters cs run.1 in
      elim b [
        | ok true ↦ (rest, s')
        | ok false ↦ ((rest.0, "invalid" ∷ rest.1), s')
        | err e ↦ ((err e, []), run.1)
      ]

  -- The outer loop, which an error of AllCharacters ends
  abbrev pub check_profiles : List Profile → State → (Ending × Lines) × State
  check_profiles [] s = ((returned, []), s)
  check_profiles (p ∷ ps) s =
      let (r, s') = all_characters w p s in
      elim r [
        | err e ↦ ((returned, []), s')
        | ok cs ↦
            let (out, s'') = check_characters cs s' in
            let (rest, t) = check_profiles ps s'' in
            elim out.0 [ err e ↦ ((stopped e, out.1), s'') | ok d ↦ ((rest.0, out.1 ++ rest.1), t) ]
      ]

  -- From `fmt.Println("valid:", source.Valid())` on
  abbrev pub report : Source × State → (Ending × Lines) × State
  report run =
      let (b, after) = valid w sso cfg run in
      elim b [
        | err e ↦ ((stopped e, []), after.1)
        | ok is_valid ↦
            let (r, s') = all_profiles w after.1 in
            elim r [
              | err e ↦ ((returned, valid_line is_valid ∷ []), s')
              | ok ps ↦
                  let (out, s'') = check_profiles ps s' in
                  ((out.0, valid_line is_valid ∷ out.1), s'')
            ]
      ]

  -- `if !source.Valid() { … }`, with the number that is the reference data
  abbrev pub authorize :
      (String → Exec State Done) → Value → Source × State → Result Done × (Source × State)
  authorize localhost_auth reference run =
      let (b, after) = valid w sso cfg run in
      elim b [
        | err e ↦ (err e, after)
        | ok true ↦ (ok tt, after)
        | ok false ↦
            let (url, opened) = auth_url w sso cfg (some reference) after in
            elim url [
              | err e ↦ (err e, opened)
              | ok au ↦ let (r, s') = localhost_auth au opened.1 in (r, (opened.0, s'))
            ]
      ]

  unfoldable pub tokengen : (String → Exec State Done) → Value → State → (Ending × Lines) × State
  unfolding default_profile
  tokengen localhost_auth reference s =
      let (r, s1) = default_profile s in
      elim r [
        | err e ↦ ((stopped e, []), s1)
        | ok p ↦
            let (cleaned, s2) = clean_pkce w s1 in
            elim cleaned [
              | err e ↦ ((stopped e, []), s2)
              | ok d ↦
                  let source = token_source p.id "Ferocious Bite" (some all_scopes) in
                  let (done, run) = authorize localhost_auth reference (source, s2) in
                  elim done [ err e ↦ ((stopped e, []), run.1) | ok d ↦ report run ]
            ]
      ]
