-- ===== src/DataStore.antt =====
-- DataStore.go: the interfaces DataStore, Profile, PKCE and Character, and the accessors of
-- CharacterClaims. A method runs against a state; one that changes its object returns the object. The
-- contexts are left out.
pub mod Evessopg
pub mod Handler
pub mod Verified
mod Tests
use evesso.Prelude.{String, Bool, Option, List, ℤ}
use evesso.Exec.{Done, Result, Exec}
use evesso.Sql.{Uuid, Time, Strings}
use evesso.Store.Base.{CharacterClaims, OauthToken}

module _ (State Value Profile Pkce Character : Type 0) where
  pub record ProfileMethods : Type 0 where
    pub get_id : Profile → Uuid
    pub get_name : Profile → String
    pub get_data : Profile → Option Value
    pub rename : Profile → String → State → Result Done × Profile × State
    pub all_characters : Profile → Exec State (List Character)
    pub get_character : Profile → Uuid → Exec State Character
    pub find_character : Profile → ℤ → String → String → Strings → Exec State Character
    pub create_character :
        Profile → CharacterClaims → OauthToken → Option Value → Exec State Character
    pub create_pkce : Profile → Option Value → Strings → Exec State Pkce
    pub delete : Profile → Exec State Done

  pub record PkceMethods : Type 0 where
    pub get_id : Pkce → Uuid
    pub get_profile_id : Pkce → Uuid
    pub get_state : Pkce → Uuid
    pub get_code_verifier : Pkce → String
    pub get_code_challange : Pkce → String
    pub get_code_challange_method : Pkce → String
    pub get_scopes : Pkce → Strings
    pub get_reference_data : Pkce → Option Value
    pub get_profile : Pkce → Exec State Profile
    pub destroy : Pkce → Exec State Done
    pub time : Pkce → Time

  pub record CharacterMethods : Type 0 where
    pub get_id : Character → Uuid
    pub get_profile_id : Character → Uuid
    pub get_character_name : Character → String
    pub get_character_id : Character → ℤ
    pub get_owner : Character → String
    pub get_scopes : Character → Strings
    pub get_reference_data : Character → Option Value
    pub is_active : Character → Bool
    pub get_profile : Character → Exec State Profile
    pub update_access_token : Character → String → State → Result Done × Character × State
    pub update_refresh_token : Character → String → State → Result Done × Character × State
    pub update_active_state : Character → Bool → State → Result Done × Character × State
    pub token : Character → State → Result OauthToken × Character × State
    pub delete : Character → Exec State Done

pub record DataStore (State Value : Type 0) : Type 1 where
  pub Profile : Type 0
  pub Pkce : Type 0
  pub Character : Type 0
  pub profile : ProfileMethods State Value Profile Pkce Character
  pub pkce : PkceMethods State Value Profile Pkce Character
  pub character : CharacterMethods State Value Profile Pkce Character
  pub setup : String → Exec State Done
  pub new_profile : String → Option Value → Exec State Profile
  pub all_profiles : Exec State (List Profile)
  pub get_profile : Uuid → Exec State Profile
  pub find_profile : String → Exec State Profile
  pub find_character : ℤ → String → String → Exec State (Profile × Character)
  pub delete_profile : Uuid → Exec State Done
  pub get_pkce : Uuid → Exec State Pkce
  pub find_pkce : Uuid → Exec State Pkce
  pub clean_pkce : Exec State Done
