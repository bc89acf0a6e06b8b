-- ===== src/Claims.antt =====
-- token.go and constants.go: the issuer check of validateAccessToken, and newCharacterClaims. A
-- verified jwt.Token is a value: what its claims read as through `Get`, `Issuer`, `Audience` and
-- `Subject`.
pub mod Sorting
pub mod Subject
pub mod Scopes
mod Tests
use evesso.Prelude.{
  String, Bool, true, false, Option, none, some, List, [], ◌∷◌, if◌then◌else◌, str_eq, any,
}
use evesso.Exec.{
  Error, Done, token_scope, token_name, token_owner, token_id, missing_issuer, invalid_issuer,
  Result, ok, err, and_then,
}
use evesso.Sql.{Time, Strings}
use evesso.Store.Base.{CharacterClaims}
use Sorting.{sort_strings}
use Subject.{codes, scan_character_id}

-- An element of a JSON array, and a JSON value, as far as newCharacterClaims tells them apart.
pub data Item : Type 0 where
  text : String → Item
  other : Item

pub data Claim : Type 0 where
  text : String → Claim
  items : List Item → Claim
  other : Claim

-- The claims that the program reads, and the three times, which jwx checks
pub record Jwt : Type 0 where
  pub issuer : Option String
  pub audience : List String
  pub subject : Option String
  pub scp : Option Claim
  pub name : Option Claim
  pub owner : Option Claim
  pub expiration : Option Time
  pub not_before : Option Time
  pub issued_at : Option Time

-- ISSUER and ISSUER_URL
abbrev pub valid_issuers : List String
valid_issuers = "login.eveonline.com" ∷ "https://login.eveonline.com" ∷ []

abbrev pub audience_name : String
audience_name = "EVE Online"

-- The jwt.ValidatorFunc of validateAccessToken
unfoldable pub check_issuer : Jwt → Result Done
check_issuer t = elim t.issuer [
  | none ↦ err missing_issuer
  | some iss ↦ if any (str_eq iss) valid_issuers then ok tt else err invalid_issuer
]

-- The loop over `[]interface{}`: `append` to a nil slice.
unfoldable pub collect_scopes : List Item → Result (List String)
collect_scopes [] = ok []
collect_scopes (Item.text s ∷ xs) = and_then (collect_scopes xs) (λ rest. ok (s ∷ rest))
collect_scopes (Item.other ∷ xs) = err token_scope

-- A slice to which nothing was appended is still nil.
abbrev pub appended : List String → Strings
appended [] = none
appended (s ∷ rest) = some (s ∷ rest)

unfoldable pub read_scopes : Option Claim → Result Strings
unfolding collect_scopes
read_scopes none = err token_scope
read_scopes (some (Claim.text s)) = ok (some (s ∷ []))
read_scopes (some (Claim.items xs)) = and_then (collect_scopes xs) (λ names. ok (appended names))
read_scopes (some Claim.other) = err token_scope

-- `jt.Get(name, &s)` with a string target
unfoldable pub read_text : Error → Option Claim → Result String
read_text e (some (Claim.text s)) = ok s
read_text e (some (Claim.items xs)) = err e
read_text e (some Claim.other) = err e
read_text e none = err e

-- `subj, _ := jt.Subject()`
abbrev pub subject_text : Option String → String
subject_text none = ""
subject_text (some s) = s

unfoldable pub sorted : Strings → Strings
sorted none = none
sorted (some names) = some (sort_strings names)

unfoldable pub new_character_claims : Jwt → Result CharacterClaims
new_character_claims t = and_then (read_scopes t.scp) (λ scopes.
    and_then (read_text token_name t.name) (λ character_name.
      and_then (read_text token_owner t.owner) (λ owner.
        elim (scan_character_id (codes (subject_text t.subject))) [
          | none ↦ err token_id
          | some character_id ↦ ok (record {
            character_id = character_id;
            character_name = character_name;
            owner = owner;
            scopes = sorted scopes;
          })
        ])))
