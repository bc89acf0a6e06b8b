-- ===== src/Store/Profiles.antt =====
-- PGStore's operations on profiles, and the methods of Profile that read or change the profile itself
-- or look characters up.
pub mod Naming
pub mod Deletion
pub mod Lookup
pub mod Reading
pub mod Owner
use evesso.Prelude.{String, true, Option, none, some, List, [], ◌∷◌, ◌++◌, ℤ}
use evesso.Exec.{Done, Result, ok, err, map_ok, Exec, pure, lift, gets, ◌>>=◌}
use evesso.Sql.{
  Uuid, Strings, Profile, ProfileValues, Character, ProfileCond, CharacterCond, ProfileSet,
  select_profiles, select_characters, insert_profile, update_profiles, delete_profiles,
}
use evesso.World.{World}
use evesso.Store.Base.{identity_conds}
use evesso.Store.Query.{query_nil, query_slice, query_struct}

module _ (w : World) where
  open w use {State, clock, Value, marshal}

  -- A nil value is not marshalled: the column stays NULL.
  pub profile_json : Option Value → Result (Option String)
  profile_json none = ok none
  profile_json (some v) = map_ok some (marshal (some v))

  unfoldable pub new_profile : String → Option Value → Exec State Profile
  unfolding profile_json
  new_profile name value = do
    marshalled ← lift (profile_json value)
    now ← gets clock
    let values : ProfileValues = record {
      profile_name = name;
      profile_data = marshalled;
      created_at = now;
      updated_at = now;
    }
    id ← query_struct w (insert_profile values)
    pure (record { id = id; values = values })

  unfoldable pub all_profiles : Exec State (List Profile)
  all_profiles = query_slice w (select_profiles [])

  unfoldable pub get_profile : Uuid → Exec State Profile
  get_profile profile_id = query_struct w (select_profiles (ProfileCond.id_is profile_id ∷ []))

  unfoldable pub find_profile : String → Exec State Profile
  find_profile name = query_struct w (select_profiles (ProfileCond.profile_name_is name ∷ []))

  unfoldable pub delete_profile : Uuid → Exec State Done
  delete_profile profile_id = query_nil w (delete_profiles (ProfileCond.id_is profile_id ∷ []))

  -- PGStore.FindCharacter
  unfoldable pub find_any_character : ℤ → String → String → Exec State (Profile × Character)
  unfolding identity_conds
  find_any_character character_id character_name owner = do
    character ← query_struct w (
        select_characters
          (identity_conds character_id character_name owner ++ CharacterCond.active_is true ∷ []))
    profile ← get_profile character.profile_ref
    pure (profile, character)

  -- Profile.Rename: the name of the object is put back if the statement fails.
  unfoldable pub rename : Profile → String → State → Result Done × Profile × State
  rename p name s =
      let old = p.profile_name in
      let renamed = record p { values = record p.values { profile_name = name } } in
      let update =
        update_profiles (ProfileSet.profile_name name ∷ ProfileSet.updated_at (clock s) ∷ [])
          (ProfileCond.id_is p.id ∷ []) in
      let (reply, s') = query_nil w update s in
      elim reply [
        | ok _ ↦ (ok tt, renamed, s')
        | err e ↦
            (err e, record renamed { values = record renamed.values { profile_name = old } }, s')
      ]

  -- Profile.Delete
  unfoldable pub delete : Profile → Exec State Done
  delete p = query_nil w (delete_profiles (ProfileCond.id_is p.id ∷ []))

  unfoldable pub all_characters : Profile → Exec State (List Character)
  all_characters p = query_slice w (select_characters (CharacterCond.profile_ref_is p.id ∷ []))

  -- Profile.GetCharacter does not ask whose character it is.
  unfoldable pub get_character : Profile → Uuid → Exec State Character
  get_character p uuid = query_struct w (select_characters (CharacterCond.id_is uuid ∷ []))

  -- Profile.FindCharacter
  unfoldable pub find_character : Profile → ℤ → String → String → Strings → Exec State Character
  unfolding identity_conds
  find_character p character_id character_name owner scopes = query_struct w (
      select_characters (
        identity_conds character_id character_name owner
        ++ CharacterCond.profile_ref_is p.id
          ∷ CharacterCond.scopes_contain scopes
          ∷ CharacterCond.active_is true
          ∷ []))
