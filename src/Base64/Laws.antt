-- ===== src/Base64/Laws.antt =====
-- Length, characters and decoding of what base64url encodes.
use evesso.Prelude.{
  ℕ, ◌+◌, ◌*◌, ◌/◌, ◌%◌, ◌<◌, ◌≡◌, refl, ap, ap₂, true, String, List, [], ◌∷◌, map, length, arith,
  All,
}
use evesso.Claims.Subject.{codes}
use evesso.Base64.{raw_url_encode}
use evesso.Base64.Alphabet.{is_unreserved, value, digit-is_unreserved, value-digit}

abbrev pub IsByte : ℕ → Type 0
IsByte n = n < 256

-- Four digits are three bytes again; two or three of them at the end are one or two bytes.
abbrev pub raw_url_values : List ℕ → List ℕ
raw_url_values [] = []
raw_url_values (u ∷ []) = []
raw_url_values (u ∷ v ∷ []) = (u * 4 + v / 16) ∷ []
raw_url_values (u ∷ v ∷ x ∷ []) = (u * 4 + v / 16) ∷ (v % 16 * 16 + x / 4) ∷ []
raw_url_values (u ∷ v ∷ x ∷ y ∷ rest) =
    (u * 4 + v / 16) ∷ (v % 16 * 16 + x / 4) ∷ (x % 4 * 64 + y) ∷ raw_url_values rest

abbrev pub raw_url_decode : String → List ℕ
raw_url_decode s = raw_url_values (map value (codes s))

-- Encoding.EncodedLen
pub length-raw_url_encode :
    (bytes : List ℕ) → length (codes (raw_url_encode bytes)) ≡ (length bytes * 8 + 5) / 6
unfolding raw_url_encode
length-raw_url_encode [] = refl
length-raw_url_encode (a ∷ []) = refl
length-raw_url_encode (a ∷ b ∷ []) = refl
length-raw_url_encode (a ∷ b ∷ c ∷ rest) = omega (arith, length-raw_url_encode rest)

pub raw_url_encode-is_unreserved :
    (bytes : List ℕ)
    → All IsByte bytes
    → All (λ c. is_unreserved c ≡ true) (codes (raw_url_encode bytes))
unfolding raw_url_encode
raw_url_encode-is_unreserved [] h = tt
raw_url_encode-is_unreserved (a ∷ []) (ha, _) = (
  digit-is_unreserved (a / 4) (omega (arith, ha)),
  (digit-is_unreserved (a % 4 * 16) (omega arith), tt),
)
raw_url_encode-is_unreserved (a ∷ b ∷ []) (ha, (hb, _)) = (
  digit-is_unreserved (a / 4) (omega (arith, ha)),
  (
    digit-is_unreserved (a % 4 * 16 + b / 16) (omega (arith, hb)),
    (digit-is_unreserved (b % 16 * 4) (omega arith), tt),
  ),
)
raw_url_encode-is_unreserved (a ∷ b ∷ c ∷ rest) (ha, (hb, (hc, h))) = (
  digit-is_unreserved (a / 4) (omega (arith, ha)),
  (
    digit-is_unreserved (a % 4 * 16 + b / 16) (omega (arith, hb)),
    (
      digit-is_unreserved (b % 16 * 4 + c / 64) (omega (arith, hc)),
      (digit-is_unreserved (c % 64) (omega arith), raw_url_encode-is_unreserved rest h),
    ),
  ),
)

-- The three bytes of four digits
first_byte : (a b : ℕ) → b < 256 → a / 4 * 4 + (a % 4 * 16 + b / 16) / 16 ≡ a
first_byte a b h = omega (arith, h)

second_byte :
    (a b c : ℕ)
    → b < 256
    → c < 256
    → (a % 4 * 16 + b / 16) % 16 * 16 + (b % 16 * 4 + c / 64) / 4 ≡ b
second_byte a b c h k = omega (arith, h, k)

third_byte : (b c : ℕ) → c < 256 → (b % 16 * 4 + c / 64) % 4 * 64 + c % 64 ≡ c
third_byte b c h = omega (arith, h)

-- Decoding what was encoded gives the bytes back.
pub raw_url_decode-encode :
    (bytes : List ℕ) → All IsByte bytes → raw_url_decode (raw_url_encode bytes) ≡ bytes
unfolding raw_url_encode
raw_url_decode-encode [] h = refl
raw_url_decode-encode (a ∷ []) (ha, _) =
    rw (value-digit (a / 4) (omega (arith, ha)), value-digit (a % 4 * 16) (omega arith))
      (ap (λ x. x ∷ []) (omega (arith, ha)))
raw_url_decode-encode (a ∷ b ∷ []) (ha, (hb, _)) =
    rw
      (
        value-digit (a / 4) (omega (arith, ha)),
        value-digit (a % 4 * 16 + b / 16) (omega (arith, hb)),
        value-digit (b % 16 * 4) (omega arith),
      )
      (ap₂ (λ x y. x ∷ y ∷ []) (first_byte a b hb) (omega (arith, hb)))
raw_url_decode-encode (a ∷ b ∷ c ∷ rest) (ha, (hb, (hc, h))) =
    rw
      (
        value-digit (a / 4) (omega (arith, ha)),
        value-digit (a % 4 * 16 + b / 16) (omega (arith, hb)),
        value-digit (b % 16 * 4 + c / 64) (omega (arith, hc)),
        value-digit (c % 64) (omega arith),
      )
      (ap₂ (λ x l. x ∷ l) (first_byte a b hb)
        (ap₂ (λ x l. x ∷ l) (second_byte a b c hb hc)
          (ap₂ (λ x l. x ∷ l) (third_byte b c hc) (raw_url_decode-encode rest h))))
