-- ===== src/Startup/DefaultProfile.antt =====
-- The profile that tokengen works with, over several runs.
use evesso.Prelude.{◌≡◌, refl, ap, ◌∙◌, arith, inl, inr, true, [], ◌∷◌, none}
use evesso.Exec.{ok, Result-cases}
use evesso.Sql.{Profile, ProfileCond, Kind, run, select_profiles}
use evesso.World.{World}
use evesso.Sso.{Sso, AppConfig}
use evesso.Store.Query.Outcome.{query_struct-ok, query_struct-served, query_struct-tables}
use evesso.Store.Profiles.{find_profile, new_profile}
use evesso.Store.Profiles.Naming.{new_profile_found}
use evesso.Startup.Tokengen.{default_profile}

module _ (w : World) where
  open w use {State, tables, served, fresh}

  -- A profile that was found is found by the next statement that is served.
  found_again :
      (s : State) (p : Profile)
      → (find_profile w "default" s).0 ≡ ok p
      → served (find_profile w "default" s).1 ≡ true
      → (find_profile w "default" (find_profile w "default" s).1).0 ≡ ok p
  unfolding find_profile run
  found_again s p h up =
      let st = select_profiles (ProfileCond.profile_name_is "default" ∷ []) in
      let s' = (find_profile w "default" s).1 in
      let (was_up, meaning) = query_struct-ok w Kind.profiles st s p h in
      let same : tables s' ≡ tables s = query_struct-tables w Kind.profiles st s ∙ ground arith in
      query_struct-served w Kind.profiles st s' (p ∷ []) up (rw same meaning)
      ∙ w.scan_one-one Kind.profiles p

module _ (w : World) (sso : Sso w) (cfg : AppConfig) where
  open w use {State, tables, served}

  default_of_found :
      (s : State) (p : Profile)
      → (find_profile w "default" s).0 ≡ ok p
      → (default_profile w sso cfg s).0 ≡ ok p
  unfolding default_profile
  default_of_found s p e = rw (default_profile, e) refl

  -- The profile that a run of tokengen has found or made is the one that FindProfile finds by the name
  -- `default` in the next statement that is served, so another run goes on with the same profile.
  pub default_profile_again :
      (s : State) (p : Profile)
      → (default_profile w sso cfg s).0 ≡ ok p
      → let s' = (default_profile w sso cfg s).1 in
        served s' ≡ true → (default_profile w sso cfg s').0 ≡ ok p
  unfolding default_profile
  default_profile_again s p h up = elim (Result-cases (find_profile w "default" s).0) [
    | inl (q, e) ↦
        let same : q ≡ p = cc (rw (default_profile, e) at h) in
        let here = (find_profile w "default" s).1 in
        let state : (default_profile w sso cfg s).1 ≡ here = rw (default_profile, e) refl in
        rw state (default_of_found here p (found_again w s p (e ∙ ap ok same) (rw state at up)))
    | inr (x, e) ↦
        let s1 = (find_profile w "default" s).1 in
        let here = (new_profile w "default" none s1).1 in
        let state : (default_profile w sso cfg s).1 ≡ here = rw (default_profile, e) refl in
        let made = rw (default_profile, e) at h in
        rw state (
          default_of_found here p (new_profile_found w "default" none s1 p made (rw state at up)).1)
  ]
