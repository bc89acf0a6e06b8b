-- ===== src/Sql/Language.antt =====
-- The statements that PGStore.go, Profile.go, Character.go and PKCE.go build with squirrel: each
-- condition, assignment and statement that occurs there is a constructor.
use evesso.Prelude.{String, Bool, List, ℤ}
use evesso.Sql.Rows.{
  Uuid, Time, Strings, Profile, ProfileValues, Pkce, PkceValues, Character, CharacterValues,
}

-- `Where` takes the conjunction of a list: sq.And, or one sq.Eq alone.
pub data ProfileCond : Type 0 where
  id_is : Uuid → ProfileCond
  profile_name_is : String → ProfileCond

pub data PkceCond : Type 0 where
  id_is : Uuid → PkceCond
  state_is : Uuid → PkceCond
  created_after : Time → PkceCond
  created_before : Time → PkceCond

pub data CharacterCond : Type 0 where
  id_is : Uuid → CharacterCond
  profile_ref_is : Uuid → CharacterCond
  character_id_is : ℤ → CharacterCond
  character_name_is : String → CharacterCond
  owner_is : String → CharacterCond
  scopes_contain : Strings → CharacterCond
  active_is : Bool → CharacterCond

-- `Set` of an UPDATE
pub data ProfileSet : Type 0 where
  profile_name : String → ProfileSet
  updated_at : Time → ProfileSet

pub data CharacterSet : Type 0 where
  access_token : String → CharacterSet
  refresh_token : String → CharacterSet
  active : Bool → CharacterSet
  updated_at : Time → CharacterSet

-- What a statement returns for each row.
pub data Kind : Type 0 where
  profiles pkces characters tokens new_id new_id_state nothing : Kind

abbrev pub Row : Kind → Type 0
Row Kind.profiles = Profile
Row Kind.pkces = Pkce
Row Kind.characters = Character
Row Kind.tokens = String × String
Row Kind.new_id = Uuid
Row Kind.new_id_state = Uuid × Uuid
Row Kind.nothing = Unit

-- `select_tokens` selects access_token and refresh_token, `insert_…` ends in RETURNING, and
-- `upsert_character` has `on conflict (profile_ref, character_id, character_name, owner, scopes) do
-- update set refresh_token = excluded.refresh_token returning id`.
pub data Statement : Kind → Type 0 where
  select_profiles : List ProfileCond → Statement Kind.profiles
  select_pkces : List PkceCond → Statement Kind.pkces
  select_characters : List CharacterCond → Statement Kind.characters
  select_tokens : List CharacterCond → Statement Kind.tokens
  insert_profile : ProfileValues → Statement Kind.new_id
  insert_pkce : PkceValues → Statement Kind.new_id_state
  upsert_character : CharacterValues → Statement Kind.new_id
  update_profiles : List ProfileSet → List ProfileCond → Statement Kind.nothing
  update_characters : List CharacterSet → List CharacterCond → Statement Kind.nothing
  delete_profiles : List ProfileCond → Statement Kind.nothing
  delete_pkces : List PkceCond → Statement Kind.nothing
  delete_characters : List CharacterCond → Statement Kind.nothing

-- The type switch of Query tells SELECT from the statements that write.
abbrev pub is_select : {k : Kind} → Statement k → Bool
is_select (select_profiles c) = Bool.true
is_select (select_pkces c) = Bool.true
is_select (select_characters c) = Bool.true
is_select (select_tokens c) = Bool.true
is_select _ = Bool.false
