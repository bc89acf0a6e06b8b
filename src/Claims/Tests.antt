-- ===== src/Claims/Tests.antt =====
-- The claims of concrete tokens.
use mathlib.Core.List.Perm
use evesso.Prelude.{◌≡◌, ◌↔◌, refl, some, none, [], ◌∷◌, ◌++◌, pos}
use evesso.Exec.{ok}
use evesso.Store.Base.{CharacterClaims}
use evesso.Claims.{Claim, Item, Jwt, new_character_claims, read_scopes, read_text, sorted}
use evesso.Claims.Sorting.{sort_strings, str_leb}
use evesso.Claims.Scopes.{
  StandsFor, with_scopes, new_character_claims_iff, new_character_claims_reordered,
}
use evesso.Claims.Subject.{
  scan_character_id, scan_character_id-decimal, scan_character_id-InInt32, InInt32, codes,
  subject_prefix,
}

abbrev carol : Jwt
carol = record {
  issuer = some "login.eveonline.com";
  audience = "EVE Online" ∷ "client" ∷ [];
  subject = some "CHARACTER:EVE:9003";
  scp = some (Claim.items (Item.text "skills" ∷ Item.text "mail" ∷ []));
  name = some (Claim.text "Carol");
  owner = some (Claim.text "owner");
  expiration = some 1090000000;
  not_before = none;
  issued_at = none;
}

abbrev expected : CharacterClaims
expected = record {
  character_id = pos 9003;
  character_name = "Carol";
  owner = "owner";
  scopes = some ("mail" ∷ "skills" ∷ []);
}

reads_carol : new_character_claims carol ≡ ok expected
unfolding new_character_claims read_scopes read_text scan_character_id sorted sort_strings str_leb
reads_carol = refl

new_character_claims_iff_example :
    (new_character_claims carol ≡ ok expected) ↔ StandsFor carol expected
new_character_claims_iff_example = new_character_claims_iff carol expected

new_character_claims_reordered_example :
    new_character_claims (with_scopes carol ("skills" ∷ "mail" ∷ []))
    ≡ new_character_claims (with_scopes carol ("mail" ∷ "skills" ∷ []))
new_character_claims_reordered_example =
    new_character_claims_reordered carol ("skills" ∷ "mail" ∷ []) ("mail" ∷ "skills" ∷ [])
      (Perm.swap _ _ _)

scan_character_id-decimal_example :
    scan_character_id (subject_prefix ++ (b'9' ∷ b'0' ∷ b':' ∷ [])) ≡ some (pos 90)
scan_character_id-decimal_example =
    scan_character_id-decimal b'9' (b'0' ∷ []) (b':' ∷ []) (refl, (refl, tt)) refl

scan_character_id-InInt32_example : InInt32 (pos 9003)
unfolding scan_character_id
scan_character_id-InInt32_example =
    scan_character_id-InInt32 (codes "CHARACTER:EVE:9003") (pos 9003) refl
