-- ===== src/Sql/Rows.antt =====
-- Rows and structs: Profile.go, PKCE.go, Character.go and the columns of 1_init.up.sql. A struct and
-- the row that it is scanned from have the same fields, so one record serves as both. The columns
-- that an INSERT gives are the record's `values`; `id` and `state` have DEFAULT gen_random_uuid().
use evesso.Prelude.{ℕ, String, Bool, Option, List, ℤ}

-- A uuid is only compared.
abbrev pub Uuid : Type 0
Uuid = ℕ

-- In microseconds, the resolution of timestamptz.
abbrev pub Time : Type 0
Time = ℕ

-- A Go []string, where `none` is nil, and a column text[], where `none` is NULL.
abbrev pub Strings : Type 0
Strings = Option (List String)

pub record ProfileValues : Type 0 where
  pub profile_name : String
  pub profile_data : Option String
  pub created_at : Time
  pub updated_at : Time

pub record Profile : Type 0 where
  pub id : Uuid
  pub values : ProfileValues
  pub open values use *

pub record PkceValues : Type 0 where
  pub profile_ref : Uuid
  pub code_verifier : String
  pub code_challange : String
  pub code_challange_method : String
  pub scopes : Strings
  pub reference_data : Option String
  pub created_at : Time

pub record Pkce : Type 0 where
  pub id : Uuid
  pub state : Uuid
  pub values : PkceValues
  pub open values use *

pub record CharacterValues : Type 0 where
  pub profile_ref : Uuid
  pub character_id : ℤ
  pub character_name : String
  pub owner : String
  pub refresh_token : String
  pub scopes : Strings
  pub active : Bool
  pub access_token : String
  pub reference_data : Option String
  pub created_at : Time
  pub updated_at : Time

pub record Character : Type 0 where
  pub id : Uuid
  pub values : CharacterValues
  pub open values use *
