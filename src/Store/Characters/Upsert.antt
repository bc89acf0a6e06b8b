-- ===== src/Store/Characters/Upsert.antt =====
-- CreateCharacter on a new grant, and on one that is stored.
use evesso.Prelude.{
  ◌≡◌, ◌≢◌, refl, sym, ◌∙◌, String, true, false, Option, some, [], ◌∷◌, map, arith, ◌==◌, ==_iff,
  if◌then◌else◌, inl, inr, Bool-cases, All, Any, All-imp, find_first, find_first_of_Any,
  find_first-none, any_of_none, any_of_Any, Any-imp,
}
use evesso.Exec.{ok, ◌>>=◌}
use evesso.Sql.{
  Uuid, Profile, Character, CharacterValues, Kind, Tables, run, same_identity, same_character,
  upsert_character, is_profile,
}
use evesso.Sql.Schema.{CharacterDiffers, SameIdentity, same_identity_iff, IsConsistent, RefersTo}
use evesso.World.{World}
use evesso.Store.Base.{CharacterClaims, OauthToken}
use evesso.Store.Query.Outcome.{query_struct-tables, query_struct-served}
use evesso.Store.Characters.{new_values, create_character}

SameIdentity-common :
    (v a b : CharacterValues) → SameIdentity v a → SameIdentity v b → SameIdentity a b
SameIdentity-common v a b h k = record {
  profile_ref = sym h.profile_ref ∙ k.profile_ref;
  character_id = sym h.character_id ∙ k.character_id;
  character_name = sym h.character_name ∙ k.character_name;
  owner = sym h.owner ∙ k.owner;
  scopes = sym h.scopes ∙ k.scopes;
  not_null = λ e. h.not_null (h.scopes ∙ e);
}

-- The row that has the identity of an insert is the one that the upsert finds.
find-identity :
    (v : CharacterValues) (old : Character) (t : Tables)
    → IsConsistent t
    → SameIdentity v old.values
    → Any (λ c. old ≡ c) t.characters
    → find_first (λ c. same_identity v c.values) t.characters ≡ some old
find-identity v old t h same there =
    find_first_of_Any (λ c. same_identity v c.values) CharacterDiffers
      (λ x y ex ey d. d.1 (
        SameIdentity-common v x.values y.values ((same_identity_iff v x.values).0 ex)
          ((same_identity_iff v y.values).0 ey)))
      old t.characters h.character_keys ((same_identity_iff v old.values).1 same) there

not_same_identity : (a b : CharacterValues) → ¬ SameIdentity a b → same_identity a b ≡ false
not_same_identity a b n = elim (Bool-cases (same_identity a b)) [
  | inl same ↦ absurd (n ((same_identity_iff a b).0 same))
  | inr other ↦ other
]

-- The row `id` with another refresh token.
abbrev pub refreshed_row : Uuid → String → Character → Character
refreshed_row id refresh_token c =
    if c.id == id
    then record c { values = record c.values { refresh_token = refresh_token } }
    else c

module _ (w : World) (p : Profile) (claims : CharacterClaims) (token : OauthToken)
    (reference_data : Option w.Value) (marshalled : String) (s : w.State)
    (readable : w.marshal reference_data ≡ ok marshalled) (up : w.served s ≡ true) where
  abbrev values : CharacterValues
  values = new_values w p claims token marshalled (w.clock s)

  -- On tables that keep their constraints, where the reference data can be marshalled and the statement is
  -- served: if a stored character has the identity of the claims, CreateCharacter answers with that row's
  -- id and changes its refresh token, and nothing else in any table: access token, reference data and the
  -- active flag stay as they were, although the object that it returns has the new ones.
  pub create_character_again :
      (old : Character)
      → IsConsistent (w.tables s)
      → Any (λ c. old ≡ c) (w.tables s).characters
      → SameIdentity values old.values
      → ((create_character w p claims token reference_data s).0
          ≡ ok (record { id = old.id; values = values }))
        × (w.tables (create_character w p claims token reference_data s).1 ≡ record (w.tables s) {
          characters = map (refreshed_row old.id token.refresh_token) (w.tables s).characters;
        })
  unfolding create_character run
  create_character_again old h there same =
      let st = upsert_character values in
      let found = find-identity values old (w.tables s) h same there in
      let answer : (run (w.fresh s) st (w.tables s)).0 ≡ ok (old.id ∷ []) = rw (found, run) refl in
      let reply =
        query_struct-served w Kind.new_id st s (old.id ∷ []) up answer
        ∙ w.scan_one-one Kind.new_id old.id in
      let after = query_struct-tables w Kind.new_id st s in
      (
        rw (readable, create_character, reply, ◌>>=◌) refl,
        rw (readable, create_character, reply, ◌>>=◌) (after ∙ rw (up, found, run) refl),
      )

  -- Where the reference data can be marshalled and the statement is served: if no stored character has the
  -- identity of the claims, the profile exists and the new id is not taken, CreateCharacter adds exactly
  -- the row that it returns, which is active, and changes nothing else in any table.
  pub create_character_new :
      All (λ c. (¬ SameIdentity values c.values) × ((w.fresh s).0 ≢ c.id)) (w.tables s).characters
      → RefersTo p.id (w.tables s).profiles
      → let c : Character = record { id = (w.fresh s).0; values = values } in
        ((create_character w p claims token reference_data s).0 ≡ ok c)
        × (w.tables (create_character w p claims token reference_data s).1
            ≡ record (w.tables s) { characters = c ∷ (w.tables s).characters })
  unfolding create_character run
  create_character_new new known =
      let st = upsert_character values in
      let c : Character = record { id = (w.fresh s).0; values = values } in
      let rows = (w.tables s).characters in
      let unfound =
        find_first-none (λ d. same_identity values d.values) rows
          (All-imp (λ d. (¬ SameIdentity values d.values) × ((w.fresh s).0 ≢ d.id)) _
            (λ d k. not_same_identity values d.values k.0) rows new) in
      let unlike = any_of_none (same_character c) rows (
        All-imp (λ d. (¬ SameIdentity values d.values) × ((w.fresh s).0 ≢ d.id))
          (λ d. same_character c d ≡ false)
          (λ d k. ground (arith, not_same_identity values d.values k.0)) rows new) in
      let referred : is_profile p.id (w.tables s) ≡ true =
        any_of_Any (λ q. q.id == p.id) (w.tables s).profiles
          (Any-imp (λ q. q.id ≡ p.id) _ (λ q e. (==_iff q.id p.id).1 e) (w.tables s).profiles
            known) in
      let answer : (run (w.fresh s) st (w.tables s)).0 ≡ ok ((w.fresh s).0 ∷ []) =
        rw (unfound, run, unlike, referred) refl in
      let reply =
        query_struct-served w Kind.new_id st s ((w.fresh s).0 ∷ []) up answer
        ∙ w.scan_one-one Kind.new_id (w.fresh s).0 in
      let after = query_struct-tables w Kind.new_id st s in
      (
        rw (readable, create_character, reply, ◌>>=◌) refl,
        rw (readable, create_character, reply, ◌>>=◌)
            (after ∙ rw (up, unfound, run, unlike, referred) refl),
      )
