-- ===== src/Sql/Meaning.antt =====
-- What a statement answers and what it does to the tables, under the constraints of 1_init.up.sql.
-- The order of rows carries no meaning.
use evesso.Prelude.{
  ◌==◌, str_eq, String, Bool, true, false, ◌&&◌, ◌||◌, not, none, some, List, [], ◌∷◌, map, ltb,
  if◌then◌else◌, int_eq, filter, any, all, unique_by, find_first,
}
use evesso.Exec.{unique_violation, foreign_key_violation, Result, ok, err}
use evesso.Sql.Rows.{Uuid, Strings, Profile, Pkce, Character, CharacterValues}
use evesso.Sql.Language.{
  ProfileCond, PkceCond, CharacterCond, ProfileSet, CharacterSet, Kind, Row, Statement,
  select_profiles, select_pkces, select_characters, select_tokens, insert_profile, insert_pkce,
  upsert_character, update_profiles, update_characters, delete_profiles, delete_pkces,
  delete_characters,
}

pub record Tables : Type 0 where
  pub profiles : List Profile
  pub pkces : List Pkce
  pub characters : List Character

-- `have @> needed`; a comparison with NULL is not true.
abbrev pub contains : Strings → Strings → Bool
contains (some have) (some needed) = all (λ s. any (str_eq s) have) needed
contains _ _ = false

abbrev pub same_texts : List String → List String → Bool
same_texts [] [] = true
same_texts (a ∷ as') (b ∷ bs) = str_eq a b && same_texts as' bs
same_texts _ _ = false

-- Equality of text[] in a unique constraint, where two NULLs are distinct.
abbrev pub same_strings : Strings → Strings → Bool
same_strings (some a) (some b) = same_texts a b
same_strings _ _ = false

abbrev pub profile_holds : Profile → ProfileCond → Bool
profile_holds r (ProfileCond.id_is v) = r.id == v
profile_holds r (ProfileCond.profile_name_is v) = str_eq r.profile_name v

abbrev pub pkce_holds : Pkce → PkceCond → Bool
pkce_holds r (PkceCond.id_is v) = r.id == v
pkce_holds r (PkceCond.state_is v) = r.state == v
pkce_holds r (PkceCond.created_after t) = ltb t r.created_at
pkce_holds r (PkceCond.created_before t) = ltb r.created_at t

abbrev pub character_holds : Character → CharacterCond → Bool
character_holds r (CharacterCond.id_is v) = r.id == v
character_holds r (CharacterCond.profile_ref_is v) = r.profile_ref == v
character_holds r (CharacterCond.character_id_is v) = int_eq r.character_id v
character_holds r (CharacterCond.character_name_is v) = str_eq r.character_name v
character_holds r (CharacterCond.owner_is v) = str_eq r.owner v
character_holds r (CharacterCond.scopes_contain v) = contains r.scopes v
character_holds r (CharacterCond.active_is v) = if v then r.active else not r.active

abbrev pub profile_matches : List ProfileCond → Profile → Bool
profile_matches cs r = all (profile_holds r) cs

abbrev pub pkce_matches : List PkceCond → Pkce → Bool
pkce_matches cs r = all (pkce_holds r) cs

abbrev pub character_matches : List CharacterCond → Character → Bool
character_matches cs r = all (character_holds r) cs

abbrev pub set_profile : List ProfileSet → Profile → Profile
set_profile [] r = r
set_profile (ProfileSet.profile_name v ∷ sets) r =
    set_profile sets (record r { values = record r.values { profile_name = v } })
set_profile (ProfileSet.updated_at v ∷ sets) r =
    set_profile sets (record r { values = record r.values { updated_at = v } })

abbrev pub set_character : List CharacterSet → Character → Character
set_character [] r = r
set_character (CharacterSet.access_token v ∷ sets) r =
    set_character sets (record r { values = record r.values { access_token = v } })
set_character (CharacterSet.refresh_token v ∷ sets) r =
    set_character sets (record r { values = record r.values { refresh_token = v } })
set_character (CharacterSet.active v ∷ sets) r =
    set_character sets (record r { values = record r.values { active = v } })
set_character (CharacterSet.updated_at v ∷ sets) r =
    set_character sets (record r { values = record r.values { updated_at = v } })

-- profiles_pkey and profiles_profile_name_idx
abbrev pub same_profile : Profile → Profile → Bool
same_profile a b = a.id == b.id || str_eq a.profile_name b.profile_name

-- pkces_pkey and pkces_state_idx
abbrev pub same_pkce : Pkce → Pkce → Bool
same_pkce a b = a.id == b.id || a.state == b.state

-- characters_identity
abbrev pub same_identity : CharacterValues → CharacterValues → Bool
same_identity a b =
    a.profile_ref == b.profile_ref
    && int_eq a.character_id b.character_id
    && str_eq a.character_name b.character_name
    && str_eq a.owner b.owner
    && same_strings a.scopes b.scopes

-- characters_pkey and characters_identity
abbrev pub same_character : Character → Character → Bool
same_character a b = a.id == b.id || same_identity a.values b.values

-- pkce_profile_fk and character_profile_fk
abbrev pub is_profile : Uuid → Tables → Bool
is_profile ref t = any (λ p. p.id == ref) t.profiles

-- `on delete cascade`: does the statement delete the profile that a row refers to?
abbrev pub is_deleted : List ProfileCond → List Profile → Uuid → Bool
is_deleted cs ps ref = any (λ p. profile_matches cs p && p.id == ref) ps

abbrev pub update_where : {A : Type 0} → (A → Bool) → (A → A) → List A → List A
update_where p f = map (λ x. if p x then f x else x)

-- `fresh` is what gen_random_uuid() answers.
unfoldable pub run :
    {k : Kind} → Uuid × Uuid → Statement k → Tables → Result (List (Row k)) × Tables
run fresh (select_profiles cs) t = (ok (filter (profile_matches cs) t.profiles), t)
run fresh (select_pkces cs) t = (ok (filter (pkce_matches cs) t.pkces), t)
run fresh (select_characters cs) t = (ok (filter (character_matches cs) t.characters), t)
run fresh (select_tokens cs) t = (
  ok (map (λ c. (c.access_token, c.refresh_token)) (filter (character_matches cs) t.characters)),
  t,
)
run fresh (insert_profile v) t =
    let added : Profile = record { id = fresh.0; values = v } in
    if any (same_profile added) t.profiles
    then (err unique_violation, t)
    else (ok (added.id ∷ []), record t { profiles = added ∷ t.profiles })
run fresh (insert_pkce v) t =
    let added : Pkce = record { id = fresh.0; state = fresh.1; values = v } in
    if any (same_pkce added) t.pkces
    then (err unique_violation, t)
    else if is_profile added.profile_ref t
    then (ok ((added.id, added.state) ∷ []), record t { pkces = added ∷ t.pkces })
    else (err foreign_key_violation, t)
run fresh (upsert_character v) t = elim (find_first (λ c. same_identity v c.values) t.characters) [
  | some old ↦ (
    ok (old.id ∷ []),
    record t {
      characters =
          update_where (λ c. c.id == old.id)
            (set_character (CharacterSet.refresh_token v.refresh_token ∷ [])) t.characters;
    },
  )
  | none ↦
      let added : Character = record { id = fresh.0; values = v } in
      if any (same_character added) t.characters
      then (err unique_violation, t)
      else if is_profile added.profile_ref t
      then (ok (added.id ∷ []), record t { characters = added ∷ t.characters })
      else (err foreign_key_violation, t)
]
run fresh (update_profiles sets cs) t =
    let updated = update_where (profile_matches cs) (set_profile sets) t.profiles in
    if unique_by same_profile updated
    then (ok [], record t { profiles = updated })
    else (err unique_violation, t)
run fresh (update_characters sets cs) t = (
  ok [],
  record t { characters = update_where (character_matches cs) (set_character sets) t.characters },
)
run fresh (delete_profiles cs) t = (
  ok [],
  record {
    profiles = filter (λ p. not (profile_matches cs p)) t.profiles;
    pkces = filter (λ k. not (is_deleted cs t.profiles k.profile_ref)) t.pkces;
    characters = filter (λ c. not (is_deleted cs t.profiles c.profile_ref)) t.characters;
  },
)
run fresh (delete_pkces cs) t =
    (ok [], record t { pkces = filter (λ k. not (pkce_matches cs k)) t.pkces })
run fresh (delete_characters cs) t =
    (ok [], record t { characters = filter (λ c. not (character_matches cs c)) t.characters })
