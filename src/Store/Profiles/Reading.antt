-- ===== src/Store/Profiles/Reading.antt =====
-- What GetProfile answers.
use evesso.Prelude.{
  ◌≡◌, refl, ap, ◌∙◌, true, List, [], ◌∷◌, arith, Any, Any-element, All-imp, IsOnly,
  IsOnly-of_filter, filter_of_IsOnly, alone_of_key,
}
use evesso.Exec.{ok}
use evesso.Sql.{Uuid, Profile, ProfileCond, Kind, run, select_profiles, profile_matches}
use evesso.Sql.Schema.{ProfileDiffers, IsConsistent, RefersTo}
use evesso.World.{World}
use evesso.Store.Query.Outcome.{query_struct-ok, query_struct-tables, query_struct-served}
use evesso.Store.Profiles.{get_profile}

module _ (w : World) where
  open w use {State, tables, served}

  abbrev by_id : Uuid → List ProfileCond
  by_id id = ProfileCond.id_is id ∷ []

  pub get_profile-tables : (id : Uuid) (s : State) → tables (get_profile w id s).1 ≡ tables s
  unfolding get_profile run
  get_profile-tables id s =
      query_struct-tables w Kind.profiles (select_profiles (by_id id)) s ∙ ground arith

  -- A profile that GetProfile answers is stored and has the id that was asked for.
  pub get_profile_sound :
      (id : Uuid) (s : State) (p : Profile)
      → (get_profile w id s).0 ≡ ok p
      → Any (λ q. p ≡ q) (tables s).profiles × (p.id ≡ id)
  unfolding get_profile run
  get_profile_sound id s p e =
      let (_, found) = query_struct-ok w Kind.profiles (select_profiles (by_id id)) s p e in
      let r = IsOnly-of_filter (profile_matches (by_id id)) p (tables s).profiles (cc found) in
      let hit = r.passes in (r.present, ground arith)

  -- GetProfile answers the profile that has the id, where there is one and the statement is served.
  pub get_profile_complete :
      (id : Uuid) (s : State)
      → served s ≡ true
      → IsConsistent (tables s)
      → RefersTo id (tables s).profiles
      → (p : Profile) × ((get_profile w id s).0 ≡ ok p) × (p.id ≡ id)
  unfolding get_profile run
  get_profile_complete id s up h known =
      let (p, same, there) = Any-element (λ q. q.id ≡ id) (tables s).profiles known in
      let own =
        alone_of_key (λ (q : Profile). q.id) ProfileDiffers (λ x y d. d.0) p (tables s).profiles
          h.profile_keys there in
      let only : IsOnly (profile_matches (by_id id)) p (tables s).profiles = record {
        present = there;
        passes = ground arith;
        alone =
            All-imp (λ q. q.id ≡ p.id → q ≡ p) _ (λ q f m. f (ground arith)) (tables s).profiles
              own;
      } in
      (
        p,
        query_struct-served w Kind.profiles (select_profiles (by_id id)) s (p ∷ []) up (
              ap ok (
                filter_of_IsOnly (profile_matches (by_id id)) ProfileDiffers (λ x d. d.0 refl) p
                  (tables s).profiles h.profile_keys only))
            ∙ w.scan_one-one Kind.profiles p,
        same,
      )
