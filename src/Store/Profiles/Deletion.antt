-- ===== src/Store/Profiles/Deletion.antt =====
-- Deleting a profile, and the cascade.
use evesso.Prelude.{
  ◌≡◌, refl, ap, Bool, true, false, not, ◌&&◌, List, [], ◌∷◌, arith, ◌==◌, inl, inr, ◌⊎◌,
  Bool-cases, filter, any, filter-cong, All-imp, any_of_Any, Any-imp,
}
use mathlib.Core.Path.{fun_ext}
use evesso.Exec.{unavailable, ok, err}
use evesso.Sql.{
  Uuid, ProfileCond, Kind, Tables, Pkce, Character, Profile, delete_profiles, run, profile_matches,
}
use evesso.Sql.Schema.{RefersTo, IsConsistent}
use evesso.World.{World}
use evesso.Store.Query.Outcome.{query_nil-tables, query_nil-reply}
use evesso.Store.Profiles.{delete_profile}

-- The tables without the profile and without what belongs to it.
abbrev pub without_profile : Uuid → Tables → Tables
without_profile id t = record {
  profiles = filter (λ p. not (p.id == id)) t.profiles;
  pkces = filter (λ k. not (k.profile_ref == id)) t.pkces;
  characters = filter (λ c. not (c.profile_ref == id)) t.characters;
}

-- Is the profile that a row refers to among those with the given id?
abbrev deletes : Uuid → List Profile → Uuid → Bool
deletes id ps ref = any (λ p. profile_matches (ProfileCond.id_is id ∷ []) p && p.id == ref) ps

deletes-ne : (id ref : Uuid) (ps : List Profile) → (ref == id) ≡ false → deletes id ps ref ≡ false
deletes-ne id ref [] e = refl
deletes-ne id ref (p ∷ ps) e = ground (arith, deletes-ne id ref ps e)

deletes_self :
    (id ref : Uuid) (ps : List Profile)
    → (ref == id) ≡ true
    → RefersTo ref ps
    → deletes id ps ref ≡ true
deletes_self id ref ps e r =
    any_of_Any (λ p. profile_matches (ProfileCond.id_is id ∷ []) p && p.id == ref) ps
      (Any-imp (λ p. p.id ≡ ref) _ (λ p same. ground arith) ps r)

deletes-eq :
    (id ref : Uuid) (ps : List Profile)
    → RefersTo ref ps
    → not (deletes id ps ref) ≡ not (ref == id)
deletes-eq id ref ps r = elim (Bool-cases (ref == id)) [
  | inl same ↦ rw (same, deletes_self id ref ps same r)
  | inr other ↦ rw (other, deletes-ne id ref ps other)
]

run-delete :
    (fresh : Uuid × Uuid) (id : Uuid) (t : Tables)
    → IsConsistent t
    → run fresh (delete_profiles (ProfileCond.id_is id ∷ [])) t ≡ (ok [], without_profile id t)
unfolding run
run-delete fresh id t h =
    let ps = t.profiles in
    let pkces =
      filter-cong (λ (k : Pkce). not (deletes id ps k.profile_ref)) (λ k. not (k.profile_ref == id))
        t.pkces
        (All-imp (λ (k : Pkce). RefersTo k.profile_ref ps) _
          (λ k r. deletes-eq id k.profile_ref ps r) t.pkces h.pkce_refs) in
    let characters =
      filter-cong (λ (c : Character). not (deletes id ps c.profile_ref))
        (λ c. not (c.profile_ref == id)) t.characters
        (All-imp (λ (c : Character). RefersTo c.profile_ref ps) _
          (λ c r. deletes-eq id c.profile_ref ps r) t.characters h.character_refs) in
    let profiles : filter (λ p. not (profile_matches (ProfileCond.id_is id ∷ []) p)) ps
        ≡ filter (λ p. not (p.id == id)) ps =
      ap (λ (f : Profile → Bool). filter f ps) (fun_ext λ p. ground arith) in
    λ i. (ok [], record { profiles = profiles i; pkces = pkces i; characters = characters i })

module _ (w : World) where
  open w use {State, tables, served, fresh}

  -- Where the references of the tables are consistent, DeleteProfile removes the profile and exactly the
  -- PKCE and character rows that refer to it if its statement is served, and returns no error; if the
  -- statement is not served, it returns the error that the database is unavailable and removes nothing.
  pub delete_profile_outcome :
      (id : Uuid) (s : State)
      → IsConsistent (tables s)
      → let (r, s') = delete_profile w id s in
        ((served s ≡ true) × (r ≡ ok tt) × (tables s' ≡ without_profile id (tables s)))
        ⊎ ((served s ≡ false) × (r ≡ err unavailable) × (tables s' ≡ tables s))
  unfolding delete_profile
  delete_profile_outcome id s h =
      let st = delete_profiles (ProfileCond.id_is id ∷ []) in
      let reply = query_nil-reply w Kind.nothing st s refl in
      let after = query_nil-tables w Kind.nothing st s refl in
      let meaning = run-delete (fresh s) id (tables s) h in
      elim (Bool-cases (served s)) [
        | inl up ↦ inl (up, ground arith, ground arith)
        | inr down ↦ inr (down, ground arith, ground arith)
      ]
