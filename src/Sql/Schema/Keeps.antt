-- ===== src/Sql/Schema/Keeps.antt =====
-- The constraints across each statement; a deletion of profiles cascades.
use evesso.Prelude.{
  ◌≡◌, refl, sym, ◌∙◌, Bool, true, false, not, ◌&&◌, List, [], ◌∷◌, map, arith, ◌==◌, ==_iff,
  if◌then◌else◌, inl, inr, Bool-cases, Option-cases, filter, any, All, All-imp, Any-imp, All-filter,
  Pairs-filter, any-false, any-true, find_first, unique_by, unique_by-Pairs, Pairs-imp, Pairs-map,
  All-map, Any-map,
}
use evesso.Sql.Rows.{Uuid, Profile, Pkce, Character}
use evesso.Sql.Language.{
  ProfileCond, ProfileSet, CharacterSet, Kind, Statement, select_profiles, select_pkces,
  select_characters, select_tokens, insert_profile, insert_pkce, upsert_character, update_profiles,
  update_characters, delete_profiles, delete_pkces, delete_characters,
}
use evesso.Sql.Meaning.{
  Tables, run, set_profile, set_character, is_deleted, is_profile, profile_matches,
  character_matches, same_profile, same_pkce, same_character, same_identity, update_where,
}
use evesso.Sql.Schema.{
  or_false_right, ProfileDiffers, PkceDiffers, CharacterDiffers, RefersTo, IsConsistent,
  ProfileDiffers-of_test, PkceDiffers-of_test, CharacterDiffers-of_test,
}

RefersTo-of_test : (ref : Uuid) (t : Tables) → is_profile ref t ≡ true → RefersTo ref t.profiles
RefersTo-of_test ref t e =
    Any-imp _ _ (λ p h. (==_iff p.id ref).0 h) t.profiles (any-true (λ p. p.id == ref) t.profiles e)

-- What `set_profile` and `set_character` leave alone.
id-set_profile : (sets : List ProfileSet) (p : Profile) → (set_profile sets p).id ≡ p.id
id-set_profile [] p = refl
id-set_profile (ProfileSet.profile_name v ∷ sets) p = id-set_profile sets _
id-set_profile (ProfileSet.updated_at v ∷ sets) p = id-set_profile sets _

-- The id, and the columns of characters_identity.
record SameKeys (a b : Character) : Type 0 where
  id : a.id ≡ b.id
  profile_ref : a.profile_ref ≡ b.profile_ref
  character_id : a.character_id ≡ b.character_id
  character_name : a.character_name ≡ b.character_name
  owner : a.owner ≡ b.owner
  scopes : a.scopes ≡ b.scopes

SameKeys-refl : (c : Character) → SameKeys c c
SameKeys-refl c = record {
  id = refl;
  profile_ref = refl;
  character_id = refl;
  character_name = refl;
  owner = refl;
  scopes = refl;
}

SameKeys-set_character :
    (sets : List CharacterSet) (c : Character) → SameKeys (set_character sets c) c
SameKeys-set_character [] c = SameKeys-refl c
SameKeys-set_character (CharacterSet.access_token v ∷ sets) c = ground (
  arith,
  SameKeys-set_character sets (record c { values = record c.values { access_token = v } }),
)
SameKeys-set_character (CharacterSet.refresh_token v ∷ sets) c = ground (
  arith,
  SameKeys-set_character sets (record c { values = record c.values { refresh_token = v } }),
)
SameKeys-set_character (CharacterSet.active v ∷ sets) c =
    ground
      (arith, SameKeys-set_character sets (record c { values = record c.values { active = v } }))
SameKeys-set_character (CharacterSet.updated_at v ∷ sets) c =
    ground (
      arith,
      SameKeys-set_character sets (record c { values = record c.values { updated_at = v } }),
    )

-- One row of an UPDATE of characters.
abbrev updated : (Character → Bool) → List CharacterSet → Character → Character
updated p sets c = if p c then set_character sets c else c

SameKeys-updated :
    (p : Character → Bool) (sets : List CharacterSet) (c : Character)
    → SameKeys (updated p sets c) c
SameKeys-updated p sets c = elim (Bool-cases (p c)) [
  | inl e ↦ rw e (SameKeys-set_character sets c)
  | inr e ↦ rw e (SameKeys-refl c)
]

CharacterDiffers-updated :
    (p : Character → Bool) (sets : List CharacterSet) (a b : Character)
    → CharacterDiffers a b
    → CharacterDiffers (updated p sets a) (updated p sets b)
CharacterDiffers-updated p sets a b h =
    let ka = SameKeys-updated p sets a in
    let kb = SameKeys-updated p sets b in
    (
      λ e. h.0 (sym ka.id ∙ e ∙ kb.id),
      λ same. h.1 (record {
        profile_ref = sym ka.profile_ref ∙ same.profile_ref ∙ kb.profile_ref;
        character_id = sym ka.character_id ∙ same.character_id ∙ kb.character_id;
        character_name = sym ka.character_name ∙ same.character_name ∙ kb.character_name;
        owner = sym ka.owner ∙ same.owner ∙ kb.owner;
        scopes = sym ka.scopes ∙ same.scopes ∙ kb.scopes;
        not_null = λ e. same.not_null (ka.scopes ∙ e);
      }),
    )

-- A row that refers to a kept profile is kept, and the others go with their profile.
RefersTo-kept :
    (cs : List ProfileCond) (ref : Uuid) (ps : List Profile)
    → is_deleted cs ps ref ≡ false
    → RefersTo ref ps
    → RefersTo ref (filter (λ p. not (profile_matches cs p)) ps)
RefersTo-kept cs ref [] e r = r
RefersTo-kept cs ref (p ∷ ps) e (inl same) = elim (Bool-cases (profile_matches cs p)) [
  | inl gone ↦ absurd (ground arith)
  | inr kept ↦ rw kept (inl same)
]
RefersTo-kept cs ref (p ∷ ps) e (inr r) =
    let rest =
      RefersTo-kept cs ref ps
        (or_false_right (profile_matches cs p && p.id == ref) (is_deleted cs ps ref) e) r in
    elim (Bool-cases (profile_matches cs p)) [
      | inl gone ↦ rw gone rest
      | inr kept ↦ rw kept (inr rest)
    ]

refs-kept :
    {A : Type 0} (ref : A → Uuid) (cs : List ProfileCond) (ps : List Profile) (xs : List A)
    → All (λ x. RefersTo (ref x) ps) xs
    → All
        (λ x. RefersTo (ref x) (filter (λ p. not (profile_matches cs p)) ps))
        (filter (λ x. not (is_deleted cs ps (ref x))) xs)
refs-kept ref cs ps [] h = tt
refs-kept ref cs ps (x ∷ xs) h = elim (Bool-cases (is_deleted cs ps (ref x))) [
  | inl gone ↦ rw gone (refs-kept ref cs ps xs h.1)
  | inr kept ↦ rw kept (RefersTo-kept cs (ref x) ps kept h.0, refs-kept ref cs ps xs h.1)
]

-- An UPDATE of profiles leaves every id in place.
abbrev renamed : (Profile → Bool) → List ProfileSet → Profile → Profile
renamed p sets r = if p r then set_profile sets r else r

RefersTo-renamed :
    (p : Profile → Bool) (sets : List ProfileSet) (ref : Uuid) (ps : List Profile)
    → RefersTo ref ps
    → RefersTo ref (map (renamed p sets) ps)
RefersTo-renamed p sets ref ps r =
    Any-map (λ q. q.id ≡ ref) (renamed p sets) ps
      (Any-imp (λ q. q.id ≡ ref) (λ q. (renamed p sets q).id ≡ ref)
        (λ q e. ground (arith, id-set_profile sets q)) ps r)

module _ {t : Tables} (h : IsConsistent t) where
  update_characters-IsConsistent :
      (p : Character → Bool) (sets : List CharacterSet)
      → IsConsistent (record t { characters = update_where p (set_character sets) t.characters })
  update_characters-IsConsistent p sets = record {
    profile_keys = h.profile_keys;
    pkce_keys = h.pkce_keys;
    character_keys =
        Pairs-map CharacterDiffers (updated p sets) (CharacterDiffers-updated p sets) t.characters
          h.character_keys;
    pkce_refs = h.pkce_refs;
    character_refs =
        All-map (λ c. RefersTo c.profile_ref t.profiles) (updated p sets) t.characters
          (All-imp (λ c. RefersTo c.profile_ref t.profiles)
            (λ c. RefersTo (updated p sets c).profile_ref t.profiles)
            (λ c r. rw (SameKeys-updated p sets c).profile_ref r) t.characters h.character_refs);
  }

  insert_profile-IsConsistent :
      (p : Profile)
      → any (same_profile p) t.profiles ≡ false
      → IsConsistent (record t { profiles = p ∷ t.profiles })
  insert_profile-IsConsistent p e = record {
    profile_keys = (
      All-imp (λ q. same_profile p q ≡ false) (ProfileDiffers p) (ProfileDiffers-of_test p)
          t.profiles (any-false (same_profile p) t.profiles e),
      h.profile_keys,
    );
    pkce_keys = h.pkce_keys;
    character_keys = h.character_keys;
    pkce_refs =
        All-imp (λ (k : Pkce). RefersTo k.profile_ref t.profiles)
          (λ k. RefersTo k.profile_ref (p ∷ t.profiles)) (λ k r. inr r) t.pkces h.pkce_refs;
    character_refs =
        All-imp (λ (c : Character). RefersTo c.profile_ref t.profiles)
          (λ c. RefersTo c.profile_ref (p ∷ t.profiles)) (λ c r. inr r) t.characters
          h.character_refs;
  }

  insert_pkce-IsConsistent :
      (k : Pkce)
      → any (same_pkce k) t.pkces ≡ false
      → is_profile k.profile_ref t ≡ true
      → IsConsistent (record t { pkces = k ∷ t.pkces })
  insert_pkce-IsConsistent k e r = record {
    profile_keys = h.profile_keys;
    pkce_keys = (
      All-imp (λ q. same_pkce k q ≡ false) (PkceDiffers k) (PkceDiffers-of_test k) t.pkces
          (any-false (same_pkce k) t.pkces e),
      h.pkce_keys,
    );
    character_keys = h.character_keys;
    pkce_refs = (RefersTo-of_test k.profile_ref t r, h.pkce_refs);
    character_refs = h.character_refs;
  }

  insert_character-IsConsistent :
      (c : Character)
      → any (same_character c) t.characters ≡ false
      → is_profile c.profile_ref t ≡ true
      → IsConsistent (record t { characters = c ∷ t.characters })
  insert_character-IsConsistent c e r = record {
    profile_keys = h.profile_keys;
    pkce_keys = h.pkce_keys;
    character_keys = (
      All-imp (λ q. same_character c q ≡ false) (CharacterDiffers c) (CharacterDiffers-of_test c)
          t.characters (any-false (same_character c) t.characters e),
      h.character_keys,
    );
    pkce_refs = h.pkce_refs;
    character_refs = (RefersTo-of_test c.profile_ref t r, h.character_refs);
  }

  update_profiles-IsConsistent :
      (p : Profile → Bool) (sets : List ProfileSet)
      → unique_by same_profile (update_where p (set_profile sets) t.profiles) ≡ true
      → IsConsistent (record t { profiles = update_where p (set_profile sets) t.profiles })
  update_profiles-IsConsistent p sets e = record {
    profile_keys =
        Pairs-imp (λ a b. same_profile a b ≡ false) ProfileDiffers ProfileDiffers-of_test _
          (unique_by-Pairs same_profile _ e);
    pkce_keys = h.pkce_keys;
    character_keys = h.character_keys;
    pkce_refs =
        All-imp (λ (k : Pkce). RefersTo k.profile_ref t.profiles)
          (λ k. RefersTo k.profile_ref (map (renamed p sets) t.profiles))
          (λ k. RefersTo-renamed p sets k.profile_ref t.profiles) t.pkces h.pkce_refs;
    character_refs =
        All-imp (λ (c : Character). RefersTo c.profile_ref t.profiles)
          (λ c. RefersTo c.profile_ref (map (renamed p sets) t.profiles))
          (λ c. RefersTo-renamed p sets c.profile_ref t.profiles) t.characters h.character_refs;
  }

  delete_profiles-IsConsistent :
      (fresh : Uuid × Uuid) (cs : List ProfileCond)
      → IsConsistent (run fresh (delete_profiles cs) t).1
  unfolding run
  delete_profiles-IsConsistent fresh cs = record {
    profile_keys = Pairs-filter ProfileDiffers _ t.profiles h.profile_keys;
    pkce_keys = Pairs-filter PkceDiffers _ t.pkces h.pkce_keys;
    character_keys = Pairs-filter CharacterDiffers _ t.characters h.character_keys;
    pkce_refs = refs-kept (λ k. k.profile_ref) cs t.profiles t.pkces h.pkce_refs;
    character_refs = refs-kept (λ c. c.profile_ref) cs t.profiles t.characters h.character_refs;
  }

-- Every statement, failing or not, keeps the keys unique and every reference to a profile that is
-- there: also the deletion of profiles, whose cascade takes the rows that refer to them.
pub run-IsConsistent :
    {k : Kind} (fresh : Uuid × Uuid) (st : Statement k) (t : Tables)
    → IsConsistent t
    → IsConsistent (run fresh st t).1
unfolding run
run-IsConsistent fresh (select_profiles cs) t h = h
run-IsConsistent fresh (select_pkces cs) t h = h
run-IsConsistent fresh (select_characters cs) t h = h
run-IsConsistent fresh (select_tokens cs) t h = h
run-IsConsistent fresh (insert_profile v) t h =
    let added : Profile = record { id = fresh.0; values = v } in
    elim (Bool-cases (any (same_profile added) t.profiles)) [
      | inl clash ↦ rw clash h
      | inr free ↦ rw free (insert_profile-IsConsistent h added free)
    ]
run-IsConsistent fresh (insert_pkce v) t h =
    let added : Pkce = record { id = fresh.0; state = fresh.1; values = v } in
    elim (Bool-cases (any (same_pkce added) t.pkces)) [
      | inl clash ↦ rw clash h
      | inr free ↦ elim (Bool-cases (is_profile added.profile_ref t)) [
        | inl known ↦ rw (free, known) (insert_pkce-IsConsistent h added free known)
        | inr unknown ↦ rw (free, unknown) h
      ]
    ]
run-IsConsistent fresh (upsert_character v) t h =
    let added : Character = record { id = fresh.0; values = v } in
    elim (Option-cases (find_first (λ c. same_identity v c.values) t.characters)) [
      | inl new ↦ elim (Bool-cases (any (same_character added) t.characters)) [
        | inl clash ↦ rw (new, run, clash) h
        | inr free ↦ elim (Bool-cases (is_profile added.profile_ref t)) [
          | inl known ↦
              rw (new, run, free, known) (insert_character-IsConsistent h added free known)
          | inr unknown ↦ rw (new, run, free, unknown) h
        ]
      ]
      | inr (old, found) ↦
          rw (found, run)
            (update_characters-IsConsistent h (λ c. c.id == old.id)
              (CharacterSet.refresh_token v.refresh_token ∷ []))
    ]
run-IsConsistent fresh (update_profiles sets cs) t h =
    elim (Bool-cases
      (unique_by same_profile (update_where (profile_matches cs) (set_profile sets) t.profiles))) [
        | inl free ↦ rw free (update_profiles-IsConsistent h (profile_matches cs) sets free)
        | inr clash ↦ rw clash h
      ]
run-IsConsistent fresh (update_characters sets cs) t h =
    update_characters-IsConsistent h (character_matches cs) sets
run-IsConsistent fresh (delete_profiles cs) t h = delete_profiles-IsConsistent h fresh cs
run-IsConsistent fresh (delete_pkces cs) t h = record {
  profile_keys = h.profile_keys;
  pkce_keys = Pairs-filter PkceDiffers _ t.pkces h.pkce_keys;
  character_keys = h.character_keys;
  pkce_refs = All-filter _ _ t.pkces h.pkce_refs;
  character_refs = h.character_refs;
}
run-IsConsistent fresh (delete_characters cs) t h = record {
  profile_keys = h.profile_keys;
  pkce_keys = h.pkce_keys;
  character_keys = Pairs-filter CharacterDiffers _ t.characters h.character_keys;
  pkce_refs = h.pkce_refs;
  character_refs = All-filter _ _ t.characters h.character_refs;
}
