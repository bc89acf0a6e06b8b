-- ===== src/DataStore/Evessopg.antt =====
-- pkg/datastore/evessopg as a DataStore, with the accessors of Profile.go, PKCE.go and Character.go.
use evesso.Prelude.{String}
use evesso.Exec.{Done, Exec}
use evesso.Sql.{Profile, Pkce, Character}
use evesso.World.{World}
use evesso.Store.Profiles
use evesso.Store.Pkces
use evesso.Store.Characters
use evesso.DataStore.{DataStore, ProfileMethods, PkceMethods, CharacterMethods}

module _ (w : World) where
  open w use {State, Value}

  abbrev pub pg_profile : ProfileMethods State Value Profile Pkce Character
  pg_profile = record {
    get_id = λ p. p.id;
    get_name = λ p. p.profile_name;
    get_data = λ p. Pkces.stored_value w p.profile_data;
    rename = Profiles.rename w;
    all_characters = Profiles.all_characters w;
    get_character = Profiles.get_character w;
    find_character = Profiles.find_character w;
    create_character = Characters.create_character w;
    create_pkce = Pkces.create_pkce w;
    delete = Profiles.delete w;
  }

  abbrev pub pg_pkce : PkceMethods State Value Profile Pkce Character
  pg_pkce = record {
    get_id = λ k. k.id;
    get_profile_id = λ k. k.profile_ref;
    get_state = λ k. k.state;
    get_code_verifier = λ k. k.code_verifier;
    get_code_challange = λ k. k.code_challange;
    get_code_challange_method = λ k. k.code_challange_method;
    get_scopes = λ k. k.scopes;
    get_reference_data = λ k. Pkces.stored_value w k.reference_data;
    get_profile = Pkces.pkce_profile w;
    destroy = Pkces.destroy w;
    time = λ k. k.created_at;
  }

  abbrev pub pg_character : CharacterMethods State Value Profile Pkce Character
  pg_character = record {
    get_id = λ c. c.id;
    get_profile_id = λ c. c.profile_ref;
    get_character_name = λ c. c.character_name;
    get_character_id = λ c. c.character_id;
    get_owner = λ c. c.owner;
    get_scopes = λ c. c.scopes;
    get_reference_data = λ c. Pkces.stored_value w c.reference_data;
    is_active = λ c. c.active;
    get_profile = Characters.character_profile w;
    update_access_token = Characters.update_access_token w;
    update_refresh_token = Characters.update_refresh_token w;
    update_active_state = Characters.update_active_state w;
    token = Characters.token w;
    delete = Characters.delete w;
  }

  -- `var _ evesso.DataStore = &PGStore{}`, given what Setup does.
  abbrev pub pg_store : (String → Exec State Done) → DataStore State Value
  pg_store setup = record {
    Profile = Profile;
    Pkce = Pkce;
    Character = Character;
    profile = pg_profile;
    pkce = pg_pkce;
    character = pg_character;
    setup = setup;
    new_profile = Profiles.new_profile w;
    all_profiles = Profiles.all_profiles w;
    get_profile = Profiles.get_profile w;
    find_profile = Profiles.find_profile w;
    find_character = Profiles.find_any_character w;
    delete_profile = Profiles.delete_profile w;
    get_pkce = Pkces.get_pkce w;
    find_pkce = Pkces.find_pkce w;
    clean_pkce = Pkces.clean_pkce w;
  }
