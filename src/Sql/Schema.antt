-- ===== src/Sql/Schema.antt =====
-- The constraints of 1_init.up.sql as an invariant of the tables.
pub mod Keeps
use evesso.Prelude.{
  ◌≡◌, ◌≢◌, ◌↔◌, refl, Bool, true, false, ◌&&◌, ◌||◌, String, Option, some, none, List, [], ◌∷◌,
  arith, str_eq, eq_iff, ◌==◌, ==_iff, int_eq, int_eq_iff, All, Any, Pairs, ℤ,
}
use evesso.Sql.Rows.{Uuid, Strings, Profile, Pkce, Character, CharacterValues}
use evesso.Sql.Meaning.{
  Tables, same_texts, same_strings, same_identity, same_profile, same_pkce, same_character,
}

-- profiles_pkey and profiles_profile_name_idx
abbrev pub ProfileDiffers : Profile → Profile → Type 0
ProfileDiffers a b = (a.id ≢ b.id) × (a.profile_name ≢ b.profile_name)

-- pkces_pkey and pkces_state_idx
abbrev pub PkceDiffers : Pkce → Pkce → Type 0
PkceDiffers a b = (a.id ≢ b.id) × (a.state ≢ b.state)

-- The five columns of characters_identity agree, and none of them is NULL.
pub record SameIdentity (a b : CharacterValues) : Type 0 where
  pub profile_ref : a.profile_ref ≡ b.profile_ref
  pub character_id : a.character_id ≡ b.character_id
  pub character_name : a.character_name ≡ b.character_name
  pub owner : a.owner ≡ b.owner
  pub scopes : a.scopes ≡ b.scopes
  pub not_null : a.scopes ≢ none

-- characters_pkey and characters_identity
abbrev pub CharacterDiffers : Character → Character → Type 0
CharacterDiffers a b = (a.id ≢ b.id) × (¬ SameIdentity a.values b.values)

-- pkce_profile_fk and character_profile_fk
abbrev pub RefersTo : Uuid → List Profile → Type 0
RefersTo ref ps = Any (λ p. p.id ≡ ref) ps

pub record IsConsistent (t : Tables) : Type 0 where
  pub profile_keys : Pairs ProfileDiffers t.profiles
  pub pkce_keys : Pairs PkceDiffers t.pkces
  pub character_keys : Pairs CharacterDiffers t.characters
  pub pkce_refs : All (λ k. RefersTo k.profile_ref t.profiles) t.pkces
  pub character_refs : All (λ c. RefersTo c.profile_ref t.profiles) t.characters

same_texts_iff : (a b : List String) → (same_texts a b ≡ true) ↔ (a ≡ b)
same_texts_iff [] [] = (λ e. refl, λ e. refl)
same_texts_iff [] (y ∷ b) = (λ e. cc, λ e. cc)
same_texts_iff (x ∷ a) [] = (λ e. cc, λ e. cc)
same_texts_iff (x ∷ a) (y ∷ b) =
    let (to, from) = same_texts_iff a b in
    ground (arith, eq_iff x y, λ (e : same_texts a b ≡ true). to e, λ (e : a ≡ b). from e)

same_strings_sound : (a b : Strings) → same_strings a b ≡ true → (a ≡ b) × (a ≢ none)
same_strings_sound none b e = cc
same_strings_sound (some a) none e = cc
same_strings_sound (some a) (some b) e = (cc ((same_texts_iff a b).0 e), λ n. cc)

same_strings_complete : (a b : Strings) → a ≡ b → a ≢ none → same_strings a b ≡ true
same_strings_complete none b e n = absurd (n refl)
same_strings_complete (some a) none e n = cc
same_strings_complete (some a) (some b) e n = (same_texts_iff a b).1 (ground arith)

-- The test of the upsert and the unique index decides whether the identities agree.
pub same_identity_iff : (a b : CharacterValues) → (same_identity a b ≡ true) ↔ SameIdentity a b
same_identity_iff a b = (
  λ e.
      let (same, given) = same_strings_sound a.scopes b.scopes (ground arith) in
      record {
        profile_ref = ground arith;
        character_id = (int_eq_iff _ _).0 (ground arith);
        character_name = (eq_iff _ _).0 (ground arith);
        owner = (eq_iff _ _).0 (ground arith);
        scopes = same;
        not_null = given;
      },
  λ h.
      let ids = (int_eq_iff _ _).1 h.character_id in
      let names = (eq_iff _ _).1 h.character_name in
      let owners = (eq_iff _ _).1 h.owner in
      let texts = same_strings_complete a.scopes b.scopes h.scopes h.not_null in
      ground (arith, ids, names, owners, texts),
)

pub or_false_right : (x y : Bool) → (x || y) ≡ false → y ≡ false
or_false_right true y e = cc
or_false_right false y e = e

pub ProfileDiffers-of_test : (a b : Profile) → same_profile a b ≡ false → ProfileDiffers a b
ProfileDiffers-of_test a b e = ground (arith, eq_iff a.profile_name b.profile_name)

pub PkceDiffers-of_test : (a b : Pkce) → same_pkce a b ≡ false → PkceDiffers a b
PkceDiffers-of_test a b e = ground arith

pub CharacterDiffers-of_test : (a b : Character) → same_character a b ≡ false → CharacterDiffers a b
CharacterDiffers-of_test a b e = (
  ground arith,
  λ h.
      let same = (same_identity_iff a.values b.values).1 h in
      cc (same, or_false_right (a.id == b.id) (same_identity a.values b.values) e),
)
