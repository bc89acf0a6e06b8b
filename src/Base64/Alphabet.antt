-- ===== src/Base64/Alphabet.antt =====
-- The digits of base64url, and their values.
use Prim.Native.Char.{code}
use evesso.Prelude.{
  ℕ, zero, suc, ◌+◌, ◌-◌, ◌<◌, ◌≡◌, refl, Bool, true, ◌&&◌, ◌||◌, arith, leb, ltb, ◌==◌, ==_iff,
  if◌then◌else◌, inl, inr, Bool-cases,
}
use evesso.Base64.{digit}

abbrev all_below : ℕ → (ℕ → Bool) → Bool
all_below zero p = true
all_below (suc n) p = p n && all_below n p

all_below-true : (n : ℕ) (p : ℕ → Bool) (i : ℕ) → all_below n p ≡ true → i < n → p i ≡ true
all_below-true zero p i h below = absurd (omega (arith, below))
all_below-true (suc n) p i h below = elim (Bool-cases (i == n)) [
  | inl last ↦ rw ((==_iff i n).0 last) (ground (arith, h))
  | inr other ↦ all_below-true n p i (ground (arith, h)) (ground (arith, below, other))
]

-- The unreserved characters of RFC 7636, section 4.1: letters, digits, `-`, `.`, `_` and `~`.
abbrev pub is_unreserved : ℕ → Bool
is_unreserved c =
    (leb b'A' c && leb c b'Z')
    || (leb b'a' c && leb c b'z')
    || (leb b'0' c && leb c b'9')
    || c == b'-'
    || c == b'.'
    || c == b'_'
    || c == b'~'

-- The value of a digit
abbrev pub value : ℕ → ℕ
value c =
    if c == b'-'
    then 62
    else if c == b'_'
    then 63
    else if ltb c b'A'
    then c + 4
    else if ltb c b'a'
    then c - 65
    else c - 71

pub digit-is_unreserved : (n : ℕ) → n < 64 → is_unreserved (code (digit n)) ≡ true
unfolding digit
digit-is_unreserved n h = all_below-true 64 (λ i. is_unreserved (code (digit i))) n refl h

pub value-digit : (n : ℕ) → n < 64 → value (code (digit n)) ≡ n
unfolding digit
value-digit n h =
    (==_iff (value (code (digit n))) n).0
      (all_below-true 64 (λ i. value (code (digit i)) == i) n refl h)
