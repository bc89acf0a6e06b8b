-- ===== src/Claims/Scopes.antt =====
-- What newCharacterClaims returns.
use mathlib.Core.List.{Perm}
use mathlib.Core.List.Perm
use evesso.Prelude.{
  String, inl, inr, ◌≡◌, refl, ap, ◌↔◌, Option, none, some, List, [], ◌∷◌, map, arith, Option-cases,
}
use evesso.Exec.{Error, Result, ok, err, token_name, token_owner, token_id, Result-cases, and_then}
use evesso.Sql.{Strings}
use evesso.Store.Base.{CharacterClaims}
use evesso.Claims.{
  Item, Claim, Jwt, collect_scopes, read_scopes, read_text, subject_text, sorted, appended,
  new_character_claims,
}
use evesso.Claims.Sorting.{sort_strings-canonical}
use evesso.Claims.Subject.{codes, scan_character_id}

-- The `scp` claim is one string, or an array of strings only.
abbrev pub IsGrant : Option Claim → List String → Type 0
IsGrant none names = ⊥
IsGrant (some (Claim.text s)) names = names ≡ s ∷ []
IsGrant (some (Claim.items xs)) names = xs ≡ map Item.text names
IsGrant (some Claim.other) names = ⊥

collect_scopes-map : (names : List String) → collect_scopes (map Item.text names) ≡ ok names
unfolding collect_scopes
collect_scopes-map [] = refl
collect_scopes-map (s ∷ names) = rw (collect_scopes-map names) refl

collect_scopes_sound :
    (xs : List Item) (names : List String) → collect_scopes xs ≡ ok names → xs ≡ map Item.text names
unfolding collect_scopes
collect_scopes_sound [] names h = ground (arith, h)
collect_scopes_sound (Item.text s ∷ xs) names h = elim (Result-cases (collect_scopes xs)) [
  | inl (rest, e) ↦
      let below = collect_scopes_sound xs rest e in
      let whole : s ∷ rest ≡ names = ground (arith, rw e at h) in rw (below, ← whole) refl
  | inr (e, e') ↦ ground (arith, rw e' at h)
]
collect_scopes_sound (Item.other ∷ xs) names h = ground (arith, h)

read_scopes_sound :
    (scp : Option Claim) (scopes : Strings)
    → read_scopes scp ≡ ok scopes
    → (names : List String) × IsGrant scp names × (scopes ≡ appended names)
unfolding read_scopes
read_scopes_sound none scopes h = ground (arith, h)
read_scopes_sound (some (Claim.text s)) scopes h = (s ∷ [], refl, ground (arith, h))
read_scopes_sound (some (Claim.items xs)) scopes h = elim (Result-cases (collect_scopes xs)) [
  | inl (names, e) ↦ (names, collect_scopes_sound xs names e, ground (arith, rw e at h))
  | inr (e, e') ↦ ground (arith, rw e' at h)
]
read_scopes_sound (some Claim.other) scopes h = ground (arith, h)

read_scopes_complete :
    (scp : Option Claim) (names : List String)
    → IsGrant scp names
    → read_scopes scp ≡ ok (appended names)
unfolding read_scopes
read_scopes_complete none names g = elim g [ ]
read_scopes_complete (some (Claim.text s)) names g = rw g refl
read_scopes_complete (some (Claim.items xs)) names g = rw (g, collect_scopes-map names) refl
read_scopes_complete (some Claim.other) names g = elim g [ ]

read_text_sound :
    (e : Error) (claim : Option Claim) (s : String)
    → read_text e claim ≡ ok s
    → claim ≡ some (Claim.text s)
unfolding read_text
read_text_sound e none s h = ground (arith, h)
read_text_sound e (some (Claim.text t)) s h = ground (arith, h)
read_text_sound e (some (Claim.items xs)) s h = ground (arith, h)
read_text_sound e (some Claim.other) s h = ground (arith, h)

-- What the claims of an accepted token have to be for it to stand for a character.
abbrev pub StandsFor : Jwt → CharacterClaims → Type 0
StandsFor t c =
    ((names : List String) × IsGrant t.scp names × (c.scopes ≡ sorted (appended names)))
    × (t.name ≡ some (Claim.text c.character_name))
    × (t.owner ≡ some (Claim.text c.owner))
    × (scan_character_id (codes (subject_text t.subject)) ≡ some c.character_id)

sound : (t : Jwt) (c : CharacterClaims) → new_character_claims t ≡ ok c → StandsFor t c
unfolding new_character_claims
sound t c h = elim (Result-cases (read_scopes t.scp)) [
  | inr (e, e') ↦ ground (arith, rw e' at h)
  | inl (scopes, s) ↦
      let (names, grant, listed) = read_scopes_sound t.scp scopes s in
      elim (Result-cases (read_text token_name t.name)) [
        | inr (e, e') ↦ ground (arith, rw (s, e') at h)
        | inl (name, n) ↦ elim (Result-cases (read_text token_owner t.owner)) [
          | inr (e, e') ↦ ground (arith, rw (s, n, e') at h)
          | inl (owner, o) ↦
              elim (Option-cases (scan_character_id (codes (subject_text t.subject)))) [
                | inl e' ↦ ground (arith, rw (s, n, o, e') at h)
                | inr (id, i) ↦
                    let named = read_text_sound token_name t.name name n in
                    let owned = read_text_sound token_owner t.owner owner o in
                    let made : record {
                      character_id = id;
                      character_name = name;
                      owner = owner;
                      scopes = sorted scopes;
                    }
                        ≡ c =
                      ground (arith, rw (s, n, o, i) at h) in
                    rw (← made) ((names, grant, ap sorted listed), named, owned, i)
              ]
        ]
      ]
]

complete : (t : Jwt) (c : CharacterClaims) → StandsFor t c → new_character_claims t ≡ ok c
unfolding new_character_claims read_text
complete t c ((names, grant, listed), named, owned, i) =
    rw (read_scopes_complete t.scp names grant, named, owned, i, ← listed) refl

-- newCharacterClaims returns the claims c exactly when the token's scp claim is one string or an array
-- of strings, of which c has the sorted list (nil for an empty array), its name and owner claims are
-- the strings of c, and its subject scans as the character id of c.
pub new_character_claims_iff :
    (t : Jwt) (c : CharacterClaims) → (new_character_claims t ≡ ok c) ↔ StandsFor t c
new_character_claims_iff t c = (sound t c, complete t c)

-- A token whose `scp` claim is the given array of strings.
abbrev pub with_scopes : Jwt → List String → Jwt
with_scopes t names = record t { scp = some (Claim.items (map Item.text names)) }

read_items :
    (names : List String)
    → read_scopes (some (Claim.items (map Item.text names))) ≡ ok (appended names)
read_items names = read_scopes_complete (some (Claim.items (map Item.text names))) names refl

sorted-appended : (xs ys : List String) → Perm xs ys → sorted (appended xs) ≡ sorted (appended ys)
unfolding sorted
sorted-appended [] [] p = refl
sorted-appended [] (y ∷ ys) p = ground (arith, Perm.length-eq p)
sorted-appended (x ∷ xs) [] p = ground (arith, Perm.length-eq p)
sorted-appended (x ∷ xs) (y ∷ ys) p = ap some (sort_strings-canonical p)

-- Tokens that differ only in the order of their scp array give the same claims, or the same error.
pub new_character_claims_reordered :
    (t : Jwt) (xs ys : List String)
    → Perm xs ys
    → new_character_claims (with_scopes t xs) ≡ new_character_claims (with_scopes t ys)
unfolding new_character_claims
new_character_claims_reordered t xs ys p =
    let identify : Strings → Result CharacterClaims = λ scopes.
      and_then (read_text token_name t.name) (λ character_name.
        and_then (read_text token_owner t.owner) (λ owner.
          elim (scan_character_id (codes (subject_text t.subject))) [
            | none ↦ err token_id
            | some character_id ↦ ok (record {
              character_id = character_id;
              character_name = character_name;
              owner = owner;
              scopes = scopes;
            })
          ])) in
    rw (read_items xs, read_items ys) (ap identify (sorted-appended xs ys p))
