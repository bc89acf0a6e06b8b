-- ===== src/Base64.antt =====
-- base64.RawURLEncoding of the standard library, by which MakePKCE in pkg/datastore/evessopg/PKCE.go
-- writes its verifier and its challenge.
pub mod Alphabet
pub mod Laws
use Prim.Native.Char.{Char, code, nul}
use evesso.Prelude.{
  ℕ, zero, suc, ◌+◌, ◌-◌, ◌*◌, ◌/◌, ◌%◌, String, List, [], ◌∷◌, if◌then◌else◌, ltb, leb, ◌==◌,
}

abbrev alphabet : String
alphabet = "ABCDEFGHIJKLMNOPQRSTUVWXYZabcdefghijklmnopqrstuvwxyz0123456789-_"

abbrev character_at : ℕ → String → Char
character_at n String.[] = nul
character_at zero (String.◌∷◌ c s) = c
character_at (suc n) (String.◌∷◌ c s) = character_at n s

unfoldable pub digit : ℕ → Char
digit n = character_at n alphabet

-- Encoding.EncodeToString without padding: three bytes are four digits, and what is left at the end is
-- filled up with zero bits.
unfoldable pub raw_url_encode : List ℕ → String
raw_url_encode [] = ""
raw_url_encode (a ∷ []) = String.◌∷◌ (digit (a / 4)) (String.◌∷◌ (digit (a % 4 * 16)) "")
raw_url_encode (a ∷ b ∷ []) =
    String.◌∷◌ (digit (a / 4))
      (String.◌∷◌ (digit (a % 4 * 16 + b / 16)) (String.◌∷◌ (digit (b % 16 * 4)) ""))
raw_url_encode (a ∷ b ∷ c ∷ rest) = String.◌∷◌ (digit (a / 4)) (
    String.◌∷◌ (digit (a % 4 * 16 + b / 16)) (
      String.◌∷◌ (digit (b % 16 * 4 + c / 64)) (String.◌∷◌ (digit (c % 64)) (raw_url_encode rest))))
