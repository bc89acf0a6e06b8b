-- ===== src/Store/Pkces.antt =====
-- PKCE.go, CreatePKCE of Profile.go, and the operations of PGStore.go on PKCE rows.
pub mod Expiry
pub mod Creation
pub mod Registry
pub mod Trace
pub mod Verifier
use Prim.Native.String.{len}
use evesso.Prelude.{ℕ, ◌+◌, ◌-◌, ◌==◌, String, Option, none, some, List, [], ◌∷◌, if◌then◌else◌}
use evesso.Exec.{Done, fault, Result, ok, err, Exec, pure, lift, gets, ◌>>=◌}
use evesso.Sql.{
  Uuid, Time, Strings, Profile, Pkce, PkceValues, PkceCond, select_pkces, insert_pkce, delete_pkces,
}
use evesso.World.{World}
use evesso.Base64.{raw_url_encode}
use evesso.Store.Base.{five_minutes, one_second}
use evesso.Store.Query.{query_nil, query_struct}
use evesso.Store.Profiles.{get_profile}

module _ (w : World) where
  open w use {State, clock, Value, marshal, unmarshal, random, sha256}

  -- MakePKCE; `none` is the nil that it returns when rand.Read fails.
  unfoldable pub make_pkce : Profile → State → Option PkceValues
  make_pkce p s = elim (random s) [
    | none ↦ none
    | some verifier ↦
        let encoded_verifier = raw_url_encode verifier in
        some (record {
          profile_ref = p.id;
          code_verifier = encoded_verifier;
          code_challange = raw_url_encode (sha256 encoded_verifier);
          code_challange_method = "S256";
          scopes = none;
          reference_data = none;
          created_at = clock s;
        })
  ]

  -- `pkce.store = p.store` dereferences what MakePKCE returned.
  abbrev pub dereference : {A : Type 0} → Option A → Result A
  dereference none = err fault
  dereference (some a) = ok a

  unfoldable pub create_pkce : Profile → Option Value → Strings → Exec State Pkce
  unfolding make_pkce
  create_pkce p reference_data scopes = do
    made ← gets (make_pkce p)
    pkce ← lift (dereference made)
    marshalled ← lift (marshal reference_data)
    let values = record pkce { reference_data = some marshalled; scopes = scopes }
    returned ← query_struct w (insert_pkce values)
    pure (record { id = returned.0; state = returned.1; values = values })

  unfoldable pub get_pkce : Uuid → Exec State Pkce
  get_pkce pkce_id = do
    now ← gets clock
    query_struct w
        (select_pkces (PkceCond.id_is pkce_id ∷ PkceCond.created_after (now - five_minutes) ∷ []))

  unfoldable pub find_pkce : Uuid → Exec State Pkce
  find_pkce state = do
    now ← gets clock
    query_struct w
        (select_pkces (PkceCond.state_is state ∷ PkceCond.created_after (now - five_minutes) ∷ []))

  unfoldable pub clean_pkce : Exec State Done
  clean_pkce = do
    now ← gets clock
    query_nil w (delete_pkces (PkceCond.created_before (now - (five_minutes + one_second)) ∷ []))

  -- PKCE.GetProfile
  unfoldable pub pkce_profile : Pkce → Exec State Profile
  pkce_profile p = get_profile w p.profile_ref

  -- PKCE.Destroy
  unfoldable pub destroy : Pkce → Exec State Done
  destroy p = query_nil w (delete_pkces (PkceCond.id_is p.id ∷ []))

  -- GetReferenceData of PKCE and Character, and GetData of Profile: nil for an empty column and for
  -- what does not parse.
  unfoldable pub stored_value : Option String → Option Value
  stored_value none = none
  stored_value (some text) =
      if len text == 0 then none else elim (unmarshal text) [ ok value ↦ value | err e ↦ none ]
