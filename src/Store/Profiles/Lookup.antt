-- ===== src/Store/Profiles/Lookup.antt =====
-- Finding characters.
use evesso.Prelude.{
  ◌≡◌, ◌≢◌, refl, ap, ◌∙◌, String, Bool, true, false, ◌&&◌, none, some, List, [], ◌∷◌, ◌++◌, arith,
  str_eq, eq_iff, ℤ, int_eq_iff, is_positive, if◌then◌else◌, ◌↔◌, filter, any, All, Any, any-true,
  any_of_Any, all_iff, all-append, All-imp, IsOnly, IsOnly-of_filter, filter_of_IsOnly, Any-filter,
  two_of_Any, Any-imp,
}
use evesso.Exec.{many_rows, ok, err}
use evesso.Sql.{
  Strings, Profile, Character, CharacterCond, Kind, select_characters, run, character_matches,
  contains,
}
use evesso.Sql.Schema.{IsConsistent, CharacterDiffers}
use evesso.World.{World}
use evesso.Store.Base.{identity_conds, is_given}
use evesso.Store.Query.Outcome.{query_struct-ok, query_struct-served}
use evesso.Store.Profiles.{find_character}

-- Every scope that is needed is among the granted ones. A nil slice is the SQL NULL, of which this is
-- never true.
abbrev pub IsGranted : Strings → Strings → Type 0
IsGranted (some have) (some needed) = All (λ x. Any (λ y. x ≡ y) have) needed
IsGranted _ _ = ⊥

-- What FindCharacter asks of a character, without SQL: it is active, belongs to the profile, agrees
-- with each of the three fields that is given, and was granted every scope that is asked for.
pub record Fits (p : Profile) (character_id : ℤ) (name owner : String) (scopes : Strings)
    (c : Character) : Type 0 where
  pub active : c.active ≡ true
  pub profile : c.profile_ref ≡ p.id
  pub id_agrees : is_positive character_id ≡ true → c.character_id ≡ character_id
  pub name_agrees : is_given name ≡ true → c.character_name ≡ name
  pub owner_agrees : is_given owner ≡ true → c.owner ≡ owner
  pub granted : IsGranted c.scopes scopes

contains_iff : (have needed : Strings) → (contains have needed ≡ true) ↔ IsGranted have needed
contains_iff none needed = (λ e. cc, λ g. absurd g)
contains_iff (some h) none = (λ e. cc, λ g. absurd g)
contains_iff (some h) (some n) = (
  λ e.
      All-imp (λ x. any (str_eq x) h ≡ true) (λ x. Any (λ y. x ≡ y) h)
        (λ x m.
          Any-imp (λ y. str_eq x y ≡ true) (λ y. x ≡ y) (λ y q. (eq_iff x y).0 q) h
            (any-true (str_eq x) h m))
        n ((all_iff (λ x. any (str_eq x) h) n).0 e),
  λ g. (all_iff (λ x. any (str_eq x) h) n).1 (
      All-imp (λ x. Any (λ y. x ≡ y) h) (λ x. any (str_eq x) h ≡ true)
        (λ x m.
          any_of_Any (str_eq x) h
            (Any-imp (λ y. x ≡ y) (λ y. str_eq x y ≡ true) (λ y q. (eq_iff x y).1 q) h m))
        n g),
)

-- A condition that is only there if its field is given.
pub optional_iff :
    (b : Bool) (c : CharacterCond) (r : Character)
    → (character_matches (if b then c ∷ [] else []) r ≡ true)
      ↔ (b ≡ true → character_matches (c ∷ []) r ≡ true)
optional_iff true c r = (λ e _. e, λ f. f refl)
optional_iff false c r = (λ e b. cc, λ f. refl)

module _ (p : Profile) (character_id : ℤ) (name owner : String) (scopes : Strings) where
  abbrev conds : List CharacterCond
  conds =
      identity_conds character_id name owner
      ++ CharacterCond.profile_ref_is p.id
        ∷ CharacterCond.scopes_contain scopes
        ∷ CharacterCond.active_is true
        ∷ []

  abbrev id_cond : List CharacterCond
  id_cond = if is_positive character_id then CharacterCond.character_id_is character_id ∷ [] else []

  abbrev name_cond : List CharacterCond
  name_cond = if is_given name then CharacterCond.character_name_is name ∷ [] else []

  abbrev owner_cond : List CharacterCond
  owner_cond = if is_given owner then CharacterCond.owner_is owner ∷ [] else []

  abbrev rest_conds : List CharacterCond
  rest_conds =
      CharacterCond.profile_ref_is p.id
      ∷ CharacterCond.scopes_contain scopes
      ∷ CharacterCond.active_is true
      ∷ []

  conds_split :
      (c : Character)
      → character_matches conds c ≡ (
          ((character_matches id_cond c && character_matches name_cond c)
            && character_matches owner_cond c)
          && character_matches rest_conds c)
  unfolding identity_conds
  conds_split c = simp all-append

  conds_iff :
      (c : Character) → (character_matches conds c ≡ true) ↔ Fits p character_id name owner scopes c
  conds_iff c =
      let split = conds_split c in
      let ids =
        optional_iff (is_positive character_id) (CharacterCond.character_id_is character_id) c in
      let names = optional_iff (is_given name) (CharacterCond.character_name_is name) c in
      let owners = optional_iff (is_given owner) (CharacterCond.owner_is owner) c in
      let scoped = contains_iff c.scopes scopes in
      (
        λ e. record {
          active = ground arith;
          profile = ground arith;
          id_agrees = λ b. let m = ids.0 (ground arith) b in (int_eq_iff _ _).0 (ground arith);
          name_agrees = λ b. let m = names.0 (ground arith) b in (eq_iff _ _).0 (ground arith);
          owner_agrees = λ b. let m = owners.0 (ground arith) b in (eq_iff _ _).0 (ground arith);
          granted = scoped.0 (ground arith);
        },
        λ h.
            let a = ids.1 (λ b. let q = (int_eq_iff _ _).1 (h.id_agrees b) in ground arith) in
            let b = names.1 (λ b. let q = (eq_iff _ _).1 (h.name_agrees b) in ground arith) in
            let d = owners.1 (λ b. let q = (eq_iff _ _).1 (h.owner_agrees b) in ground arith) in
            let g = scoped.1 h.granted in ground (arith, h.active, h.profile),
      )

module _ (w : World) (p : Profile) (character_id : ℤ) (name owner : String) (scopes : Strings) where
  open w use {State, tables, served, scan_one-many, scan_one-one}

  abbrev fits : Character → Bool
  fits = character_matches (conds p character_id name owner scopes)

  -- Whatever the tables hold, a character that is answered is stored, fits, and is the only one to fit.
  pub find_character_sound :
      (s : State) (c : Character)
      → (find_character w p character_id name owner scopes s).0 ≡ ok c
      → Any (λ d. c ≡ d) (tables s).characters
        × Fits p character_id name owner scopes c
        × All (λ d. Fits p character_id name owner scopes d → d ≡ c) (tables s).characters
  unfolding find_character run
  find_character_sound s c e =
      let rows = (tables s).characters in
      let test = λ (d : Character). conds_iff p character_id name owner scopes d in
      let (_, found) =
        query_struct-ok w Kind.characters
          (select_characters (conds p character_id name owner scopes)) s c e in
      let r = IsOnly-of_filter fits c rows (cc found) in
      (
        r.present,
        (test c).0 r.passes,
        All-imp (λ d. fits d ≡ true → d ≡ c) _ (λ d k g. k ((test d).1 g)) rows r.alone,
      )

  -- On tables that keep their constraints, and when the statement is served, FindCharacter answers a
  -- character exactly if that is a stored one which fits, and the only stored one which does.
  pub find_character_iff :
      (s : State) (c : Character)
      → served s ≡ true
      → IsConsistent (tables s)
      → ((find_character w p character_id name owner scopes s).0 ≡ ok c) ↔ (
          Any (λ d. c ≡ d) (tables s).characters
          × Fits p character_id name owner scopes c
          × All (λ d. Fits p character_id name owner scopes d → d ≡ c) (tables s).characters)
  unfolding find_character run
  find_character_iff s c up h =
      let st = select_characters (conds p character_id name owner scopes) in
      let rows = (tables s).characters in
      let test = λ (d : Character). conds_iff p character_id name owner scopes d in
      (
        find_character_sound s c,
        λ g.
            let only : IsOnly fits c rows = record {
              present = g.0;
              passes = (test c).1 g.1;
              alone =
                  All-imp (λ d. Fits p character_id name owner scopes d → d ≡ c) _
                    (λ d k m. k ((test d).0 m)) rows g.2;
            } in
            query_struct-served w Kind.characters st s (c ∷ []) up (
              ap ok (
                filter_of_IsOnly fits CharacterDiffers (λ x d. d.0 refl) c rows h.character_keys
                  only))
            ∙ scan_one-one Kind.characters c,
      )

  -- When the statement is served, two different stored characters that fit make FindCharacter fail with
  -- `many_rows`.
  pub find_character_ambiguous :
      (s : State) (c d : Character)
      → served s ≡ true
      → Any (λ r. c ≡ r) (tables s).characters
      → Any (λ r. d ≡ r) (tables s).characters
      → Fits p character_id name owner scopes c
      → Fits p character_id name owner scopes d
      → c ≢ d
      → (find_character w p character_id name owner scopes s).0 ≡ err many_rows
  unfolding find_character run
  find_character_ambiguous s c d up hc hd fc fd ne =
      let st = select_characters (conds p character_id name owner scopes) in
      let rows = (tables s).characters in
      let test = λ (d : Character). conds_iff p character_id name owner scopes d in
      let (q, r, rs, e) =
        two_of_Any c d (filter fits rows) (Any-filter fits c rows ((test c).1 fc) hc)
          (Any-filter fits d rows ((test d).1 fd) hd) ne in
      query_struct-served w Kind.characters st s (q ∷ r ∷ rs) up (ap ok e)
      ∙ scan_one-many Kind.characters q r rs
