-- ===== src/World/Samples.antt =====
-- Rows to run the store on: two profiles, a character with two grants, an inactive one, and a PKCE.
use evesso.Prelude.{
  ◌≢◌, eq_iff, refl, arith, String, Bool, true, false, none, some, [], ◌∷◌, ℤ, pos, inl,
}
use evesso.Sql.{Uuid, Strings, Profile, Pkce, Character, Tables}
use evesso.Sql.Schema.{IsConsistent}
use evesso.World.Memory.{Server}

abbrev pub profile : Uuid → String → Profile
profile id name = record {
  id = id;
  values = record { profile_name = name; profile_data = none; created_at = 5; updated_at = 5 };
}

abbrev pub home : Profile
home = profile 1 "default"

abbrev pub second : Profile
second = profile 2 "second"

abbrev pub grant : Uuid → ℤ → String → Bool → Strings → Character
grant id character_id name active scopes = record {
  id = id;
  values = record {
    profile_ref = 1;
    character_id = character_id;
    character_name = name;
    owner = "owner";
    refresh_token = "refresh";
    scopes = scopes;
    active = active;
    access_token = "";
    reference_data = none;
    created_at = 6;
    updated_at = 6;
  };
}

abbrev pub pilot : Character
pilot = grant 10 (pos 9001) "Ada" true (some ("mail" ∷ "skills" ∷ []))

abbrev pub pilot_again : Character
pilot_again = grant 11 (pos 9001) "Ada" true (some ("mail" ∷ []))

abbrev pub grounded : Character
grounded = grant 12 (pos 9002) "Bob" false (some ("mail" ∷ []))

abbrev pub pending : Pkce
pending = record {
  id = 20;
  state = 21;
  values = record {
    profile_ref = 1;
    code_verifier = "verifier";
    code_challange = "challenge";
    code_challange_method = "S256";
    scopes = some ("mail" ∷ []);
    reference_data = none;
    created_at = 1000000000;
  };
}

abbrev pub rows : Tables
rows = record {
  profiles = home ∷ second ∷ [];
  pkces = pending ∷ [];
  characters = pilot ∷ pilot_again ∷ grounded ∷ [];
}

unlike : ◌≢◌ {A = String} "Ada" "Bob"
unlike e = cc ((eq_iff "Ada" "Bob").1 e)

pub rows-IsConsistent : IsConsistent rows
rows-IsConsistent = record {
  profile_keys = (((λ e. omega (arith, e), λ e. cc e), tt), (tt, tt));
  pkce_keys = (tt, tt);
  character_keys = (
    (
      (λ e. omega (arith, e), λ h. cc h.scopes),
      ((λ e. omega (arith, e), λ h. unlike h.character_name), tt),
    ),
    (((λ e. omega (arith, e), λ h. unlike h.character_name), tt), (tt, tt)),
  );
  pkce_refs = (inl refl, tt);
  character_refs = (inl refl, (inl refl, (inl refl, tt)));
}

-- A minute after `pending` was made.
abbrev pub running : Server
running = record { contents = rows; now = 1060000000; next = 100; plan = [] }

-- No statement is served.
abbrev pub broken : Server
broken = record running { plan = false ∷ false ∷ false ∷ [] }
