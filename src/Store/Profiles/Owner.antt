-- ===== src/Store/Profiles/Owner.antt =====
-- PGStore.FindCharacter, which looks on all profiles.
use evesso.Prelude.{
  ◌≡◌, ◌↔◌, ◌∙◌, String, true, ◌&&◌, List, [], ◌∷◌, ◌++◌, arith, eq_iff, ℤ, int_eq_iff, is_positive,
  if◌then◌else◌, inl, inr, all-append, Any, All, All-Any, All-imp, Any-imp, refl, sym, ap, IsOnly,
  IsOnly-of_filter, filter_of_IsOnly, alone_of_key,
}
use evesso.Sql.Schema.{CharacterDiffers, ProfileDiffers, IsConsistent, RefersTo}
use evesso.Exec.{ok, Result, Result-cases, ◌>>=◌}
use evesso.Sql.{Profile, Character, CharacterCond, Kind, run, select_characters, character_matches}
use evesso.World.{World}
use evesso.Store.Base.{identity_conds, is_given}
use evesso.Store.Query.{query_struct}
use evesso.Store.Query.Outcome.{query_struct-ok, query_struct-tables, query_struct-served}
use evesso.Store.Profiles.{get_profile, find_any_character}
use evesso.Store.Profiles.Lookup.{optional_iff}
use evesso.Store.Profiles.Reading.{get_profile_sound, get_profile_complete}

-- What FindCharacter of PGStore asks of a character: it is active, and agrees with each field given.
pub record Agrees (character_id : ℤ) (name owner : String) (c : Character) : Type 0 where
  pub active : c.active ≡ true
  pub id_agrees : is_positive character_id ≡ true → c.character_id ≡ character_id
  pub name_agrees : is_given name ≡ true → c.character_name ≡ name
  pub owner_agrees : is_given owner ≡ true → c.owner ≡ owner

module _ (character_id : ℤ) (name owner : String) where
  abbrev pub any_conds : List CharacterCond
  any_conds = identity_conds character_id name owner ++ CharacterCond.active_is true ∷ []

  any_conds_iff :
      (c : Character) → (character_matches any_conds c ≡ true) ↔ Agrees character_id name owner c
  unfolding identity_conds
  any_conds_iff c =
      let id_cond =
        if is_positive character_id then CharacterCond.character_id_is character_id ∷ [] else [] in
      let name_cond = if is_given name then CharacterCond.character_name_is name ∷ [] else [] in
      let owner_cond = if is_given owner then CharacterCond.owner_is owner ∷ [] else [] in
      let split : character_matches any_conds c ≡ (
          ((character_matches id_cond c && character_matches name_cond c)
            && character_matches owner_cond c)
          && character_matches (CharacterCond.active_is true ∷ []) c) =
        simp all-append in
      let ids =
        optional_iff (is_positive character_id) (CharacterCond.character_id_is character_id) c in
      let names = optional_iff (is_given name) (CharacterCond.character_name_is name) c in
      let owners = optional_iff (is_given owner) (CharacterCond.owner_is owner) c in
      (
        λ e. record {
          active = ground arith;
          id_agrees = λ b. let m = ids.0 (ground arith) b in (int_eq_iff _ _).0 (ground arith);
          name_agrees = λ b. let m = names.0 (ground arith) b in (eq_iff _ _).0 (ground arith);
          owner_agrees = λ b. let m = owners.0 (ground arith) b in (eq_iff _ _).0 (ground arith);
        },
        λ h.
            let a = ids.1 (λ b. let q = (int_eq_iff _ _).1 (h.id_agrees b) in ground arith) in
            let b = names.1 (λ b. let q = (eq_iff _ _).1 (h.name_agrees b) in ground arith) in
            let d = owners.1 (λ b. let q = (eq_iff _ _).1 (h.owner_agrees b) in ground arith) in
            ground (arith, h.active),
      )

  abbrev Only : Character → List Character → Type 0
  Only c rows =
      Any (λ d. c ≡ d) rows
      × Agrees character_id name owner c
      × All (λ d. Agrees character_id name owner d → d ≡ c) rows

  module _ (w : World) (s : w.State) (p : Profile) (c : Character) where
    abbrev selected : Result Character × w.State
    selected = query_struct w (select_characters any_conds) s

    selected-tables : w.tables selected.1 ≡ w.tables s
    unfolding run
    selected-tables =
        query_struct-tables w Kind.characters (select_characters any_conds) s ∙ ground arith

    selected-Only : selected.0 ≡ ok c → Only c (w.tables s).characters
    unfolding run
    selected-Only found =
        let (_, answer) =
          query_struct-ok w Kind.characters (select_characters any_conds) s c found in
        let rows = (w.tables s).characters in
        let r = IsOnly-of_filter (character_matches any_conds) c rows (cc answer) in
        (
          r.present,
          (any_conds_iff c).0 r.passes,
          All-imp (λ d. character_matches any_conds d ≡ true → d ≡ c) _
              (λ d k g. k ((any_conds_iff d).1 g)) rows r.alone,
        )

    Only-selected :
        w.served s ≡ true
        → IsConsistent (w.tables s)
        → Only c (w.tables s).characters
        → selected.0 ≡ ok c
    unfolding run
    Only-selected up h (there, agrees, alone) =
        let rows = (w.tables s).characters in
        let only : IsOnly (character_matches any_conds) c rows = record {
          present = there;
          passes = (any_conds_iff c).1 agrees;
          alone =
              All-imp (λ d. Agrees character_id name owner d → d ≡ c) _
                (λ d k m. k ((any_conds_iff d).0 m)) rows alone;
        } in
        query_struct-served w Kind.characters (select_characters any_conds) s (c ∷ []) up (
          ap ok (
            filter_of_IsOnly (character_matches any_conds) CharacterDiffers (λ x d. d.0 refl) c rows
              h.character_keys only))
        ∙ w.scan_one-one Kind.characters c

    -- Whatever the tables hold, a profile and a character that PGStore.FindCharacter answers are stored.
    find_any_character_sound :
        (find_any_character w character_id name owner s).0 ≡ ok (p, c)
        → Only c (w.tables s).characters
          × Any (λ q. p ≡ q) (w.tables s).profiles
          × (p.id ≡ c.profile_ref)
    unfolding find_any_character
    find_any_character_sound e = elim (Result-cases selected.0) [
      | inr (f, bad) ↦ cc (rw (bad, ◌>>=◌) at e)
      | inl (d, found) ↦ elim (Result-cases (get_profile w d.profile_ref selected.1).0) [
        | inr (f, bad) ↦ cc (rw (found, ◌>>=◌, bad) at e)
        | inl (q, owned) ↦
            let same : ok (q, d) ≡ ok (p, c) = rw (found, ◌>>=◌, owned) at e in
            let profile : q ≡ p = cc same in
            let character : d ≡ c = cc same in
            let (known, id) = get_profile_sound w d.profile_ref selected.1 q owned in
            let stored : Any (λ x. q ≡ x) (w.tables s).profiles = rw selected-tables at known in
            (
              selected-Only (found ∙ ap ok character),
              rw (← profile) stored,
              ap (λ (x : Profile). x.id) (sym profile)
                  ∙ id
                  ∙ ap (λ (x : Character). x.profile_ref) character,
            )
      ]
    ]

    profile_is :
        IsConsistent (w.tables s)
        → Any (λ q. p ≡ q) (w.tables s).profiles
        → (q : Profile) → Any (λ r. q ≡ r) (w.tables s).profiles
        → q.id ≡ p.id
        → q ≡ p
    profile_is h there q known id =
        All-Any (λ r. r.id ≡ p.id → r ≡ p) (λ r. q ≡ r) (w.tables s).profiles
          (alone_of_key (λ (r : Profile). r.id) ProfileDiffers (λ x y d. d.0) p
            (w.tables s).profiles h.profile_keys there)
          known (λ r k e. e ∙ k (ap (λ (x : Profile). x.id) (sym e) ∙ id))

    -- On tables that keep their constraints, and when both statements are served, PGStore.FindCharacter
    -- answers a profile and a character exactly if the character is a stored active one that agrees with
    -- each field that was given, and the only stored one that does, on any profile, and the profile is the
    -- stored one that the character refers to.
    pub find_any_character_iff :
        w.served s ≡ true
        → w.served selected.1 ≡ true
        → IsConsistent (w.tables s)
        → ((find_any_character w character_id name owner s).0 ≡ ok (p, c)) ↔ (
            Any (λ d. c ≡ d) (w.tables s).characters
            × Agrees character_id name owner c
            × All (λ d. Agrees character_id name owner d → d ≡ c) (w.tables s).characters
            × Any (λ q. p ≡ q) (w.tables s).profiles
            × (p.id ≡ c.profile_ref))
    unfolding find_any_character
    find_any_character_iff up up' h = (
      λ e.
          let ((there, agrees, alone), known, id) = find_any_character_sound e in
          (there, agrees, alone, known, id),
      λ (there, agrees, alone, known, id).
          let found = Only-selected up h (there, agrees, alone) in
          let refers : RefersTo c.profile_ref (w.tables s).profiles =
            Any-imp (λ q. p ≡ q) _ (λ q e. ap (λ (x : Profile). x.id) (sym e) ∙ id)
              (w.tables s).profiles known in
          let (q, got, own) =
            get_profile_complete w c.profile_ref selected.1 up' (rw selected-tables h)
              (rw selected-tables refers) in
          let (there_q, _) = get_profile_sound w c.profile_ref selected.1 q got in
          let same : q ≡ p = profile_is h known q (rw selected-tables at there_q) (own ∙ sym id) in
          rw (find_any_character, found, ◌>>=◌, got, same) refl,
    )
