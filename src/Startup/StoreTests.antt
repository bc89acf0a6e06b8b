-- ===== src/Startup/StoreTests.antt =====
-- Setup over a database that counts versions, and the profile of tokengen in the world in memory.
use evesso.Prelude.{ℕ, ◌+◌, ◌≡◌, ◌⊎◌, refl, arith, ◌==◌, String, none, if◌then◌else◌, []}
use evesso.Exec.{Error, no_change, Done, Result, ok, err}
use evesso.Sql.{Profile, run}
use evesso.World.Memory.{Server, memory}
use evesso.World.Samples.{running}
use evesso.Store.Query.{query_struct}
use evesso.Store.Profiles.{find_profile, new_profile}
use evesso.Sso.Memory.{config, sign_on}
use evesso.Startup.Migrations.{Postgres, PgStore, migrate, new_pg_store, setup}
use evesso.Startup.Migrated.{IsReady, setup-outcome}
use evesso.Startup.Tokengen.{default_profile}
use evesso.Startup.DefaultProfile.{default_profile_again}

abbrev raise_version : ℕ → Result Done × ℕ
raise_version s = if s == 1 then (err no_change, s) else (ok tt, 1)

abbrev versions : Postgres
versions = record {
  State = ℕ;
  Connection = Unit;
  Driver = Unit;
  open_driver = ok tt;
  Config = String;
  parse_config = λ dsn. ok dsn;
  database = λ c. c;
  Pool = Unit;
  new_pool = λ c s. (ok tt, s);
  Instance = Unit;
  with_instance = λ c i s. (ok tt, s);
  Migrate = Unit;
  new_migrate = λ d i s. (ok tt, s);
  is_current = λ m s. s == 1;
  up = λ m s. raise_version s;
  up-ok = λ m s h. ground arith;
  up-no_change = λ m s h. ground arith;
}

abbrev unset : PgStore versions
unset = record { schema = ""; pool = none; lock = none; migrations = none }

first_setup :
    ((setup versions "evesso" unset 0).0 ≡ ok tt) × ((setup versions "evesso" unset 0).2 ≡ 1)
unfolding setup new_pg_store migrate
first_setup = (refl, refl)

second_setup :
    ((setup versions "evesso" unset 1).0 ≡ ok tt) × ((setup versions "evesso" unset 1).2 ≡ 1)
unfolding setup new_pg_store migrate
second_setup = (refl, refl)

setup-outcome_example :
    let (r, x, s) = setup versions "evesso" unset 1 in
    ((r ≡ ok tt) × IsReady versions x s) ⊎ ((e : Error) × (r ≡ err e) × (x ≡ unset))
setup-outcome_example = setup-outcome versions "evesso" unset 1

-- Nothing is stored yet.
abbrev empty_store : Server
empty_store = record running { contents = record { profiles = []; pkces = []; characters = [] } }

abbrev first : Result Profile × Server
first = default_profile memory sign_on config empty_store

abbrev made : Profile
made = record {
  id = empty_store.next + 2;
  values = record {
    profile_name = "default";
    profile_data = none;
    created_at = 1060000001;
    updated_at = 1060000001;
  };
}

makes : first.0 ≡ ok made
unfolding default_profile find_profile new_profile query_struct run
makes = refl

default_profile_again_example : (default_profile memory sign_on config first.1).0 ≡ ok made
unfolding default_profile find_profile new_profile query_struct run
default_profile_again_example =
    default_profile_again memory sign_on config empty_store made makes refl
