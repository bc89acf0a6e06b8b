-- ===== src/Store/Tests.antt =====
-- Runs of the store in the world of World/Memory.antt.
use evesso.Prelude.{
  ◌≡◌, ◌≢◌, ◌⊎◌, ◌↔◌, eq_iff, String, inl, inr, refl, ap, arith, true, false, none, some, [], ◌∷◌,
  pos, All, Any,
}
use evesso.Exec.{Error, ok, err, many_rows, unavailable, unique_violation, ◌>>=◌, ◌>>◌}
use evesso.Sql.{Character, run}
use evesso.Sql.Schema.{IsConsistent}
use evesso.World.Memory.{Server, memory}
use evesso.World.Samples.{grounded, home, pilot, pilot_again, rows, rows-IsConsistent, running}
use evesso.Store.Profiles.{
  find_any_character, new_profile, get_profile, find_profile, delete_profile, rename,
  find_character,
}
use evesso.Store.Profiles.Naming.{with_name, rename_tables, rename_outcome}
use evesso.Store.Profiles.Lookup.{IsGranted, Fits, find_character_iff, find_character_ambiguous}
use evesso.Store.Profiles.Deletion.{without_profile, delete_profile_outcome}
use evesso.Store.Profiles.Owner.{Agrees, find_any_character_iff}
use evesso.Store.Query.{query_nil, query_struct, query_slice}

program : Unit {0}
unfolding new_profile get_profile find_profile delete_profile rename query_nil query_struct
    query_slice run
program = tt

abbrev empty : Server
empty = record {
  contents = record { profiles = []; pkces = []; characters = [] };
  now = 1000000000;
  next = 1;
  plan = [];
}

abbrev one_profile : Server
one_profile = record empty {
  contents = record {
    profiles =
        (record {
          id = 1;
          values = record {
            profile_name = "default";
            profile_data = none;
            created_at = 1000000000;
            updated_at = 1000000000;
          };
        })
        ∷ [];
    pkces = [];
    characters = [];
  };
  now = 1000000001;
  next = 3;
}

create : (new_profile memory "default" none empty).1 ≡ one_profile
unfolding program
create = refl

create_twice : (new_profile memory "default" none one_profile).0 ≡ err unique_violation
unfolding program
create_twice = refl

create_find :
    (do new_profile memory "default" none; find_profile memory "default") empty
    ≡ (do p ← new_profile memory "default" none; get_profile memory p.id) empty
unfolding program
create_find = refl

rename_outcome_example :
    let (r, p', s') = rename memory home "main" running in
    ((r ≡ ok tt)
      × (p' ≡ with_name home "main")
      × (s'.contents ≡ rename_tables memory home "main" running))
    ⊎ ((e : Error) × (r ≡ err e) × (p' ≡ home) × (s'.contents ≡ rows))
rename_outcome_example = rename_outcome memory home "main" running

delete_profile_outcome_example :
    let (r, s') = delete_profile memory 1 running in
    ((memory.served running ≡ true) × (r ≡ ok tt) × (s'.contents ≡ without_profile 1 rows))
    ⊎ ((memory.served running ≡ false) × (r ≡ err unavailable) × (s'.contents ≡ rows))
delete_profile_outcome_example = delete_profile_outcome memory 1 running rows-IsConsistent

find_character_iff_example :
    ((find_character memory home (pos 0) "Ada" "" (some ("skills" ∷ [])) running).0 ≡ ok pilot) ↔ (
      Any (λ d. pilot ≡ d) rows.characters
      × Fits home (pos 0) "Ada" "" (some ("skills" ∷ [])) pilot
      × All (λ d. Fits home (pos 0) "Ada" "" (some ("skills" ∷ [])) d → d ≡ pilot) rows.characters)
find_character_iff_example =
    find_character_iff memory home (pos 0) "Ada" "" (some ("skills" ∷ [])) running pilot refl
      rows-IsConsistent

other_grant : pilot ≢ pilot_again
other_grant e = let ids : 10 ≡ 11 = ap (λ (c : Character). c.id) e in omega (arith, ids)

Fits-ada :
    (c : Character)
    → c.active ≡ true
    → c.profile_ref ≡ 1
    → c.character_name ≡ "Ada"
    → IsGranted c.scopes (some ("mail" ∷ []))
    → Fits home (pos 0) "Ada" "" (some ("mail" ∷ [])) c
Fits-ada c active here named granted = record {
  active = active;
  profile = here;
  id_agrees = λ e. cc e;
  name_agrees = λ e. named;
  owner_agrees = λ e. cc e;
  granted = granted;
}

find_character_ambiguous_example :
    (find_character memory home (pos 0) "Ada" "" (some ("mail" ∷ [])) running).0 ≡ err many_rows
find_character_ambiguous_example =
    find_character_ambiguous memory home (pos 0) "Ada" "" (some ("mail" ∷ [])) running pilot
      pilot_again refl (inl refl) (inr (inl refl)) (Fits-ada pilot refl refl refl (inl refl, tt))
      (Fits-ada pilot_again refl refl refl (inl refl, tt)) other_grant

abbrev one_grant : Server
one_grant = record running { contents = record rows { characters = grounded ∷ pilot ∷ [] } }

bob_not_ada : ◌≢◌ {A = String} "Bob" "Ada"
bob_not_ada e = cc ((eq_iff "Bob" "Ada").1 e)

one_grant-IsConsistent : IsConsistent one_grant.contents
one_grant-IsConsistent = record {
  profile_keys = rows-IsConsistent.profile_keys;
  pkce_keys = rows-IsConsistent.pkce_keys;
  character_keys = (((λ e. omega (arith, e), λ h. bob_not_ada h.character_name), tt), (tt, tt));
  pkce_refs = rows-IsConsistent.pkce_refs;
  character_refs = (inl refl, (inl refl, tt));
}

find_any_character_iff_example :
    ((find_any_character memory (pos 9001) "" "owner" one_grant).0 ≡ ok (home, pilot)) ↔ (
      Any (λ d. pilot ≡ d) one_grant.contents.characters
      × Agrees (pos 9001) "" "owner" pilot
      × All (λ d. Agrees (pos 9001) "" "owner" d → d ≡ pilot) one_grant.contents.characters
      × Any (λ q. home ≡ q) rows.profiles
      × (home.id ≡ pilot.profile_ref))
unfolding program find_any_character
find_any_character_iff_example =
    find_any_character_iff (pos 9001) "" "owner" memory one_grant home pilot refl refl
      one_grant-IsConsistent
