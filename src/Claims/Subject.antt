-- ===== src/Claims/Subject.antt =====
-- fmt.Sscanf(subj, "CHARACTER:EVE:%d", &claims.characterID) with an int32 target: the literal prefix,
-- white space, an optional sign and decimal digits. What follows the digits is not read.
use Prim.Native.Char.{code}
use evesso.Prelude.{
  ℕ, zero, suc, ◌+◌, ◌-◌, ◌*◌, ◌^◌, ◌≤◌, ◌<◌, ◌≡◌, refl, Bool, true, false, ◌&&◌, ◌||◌, String,
  Option, none, some, List, [], ◌∷◌, ◌++◌, arith, ltb, leb, ◌==◌, if◌then◌else◌, ℤ, pos, negsuc,
  All, Bool-cases, inl, inr,
}

-- The code points of a text.
abbrev pub codes : String → List ℕ
codes String.[] = []
codes (String.◌∷◌ c s) = code c ∷ codes s

-- isSpace of package fmt
unfoldable pub is_space : ℕ → Bool
is_space c =
    (leb 0x9 c && leb c 0xd)
    || c == 0x20
    || c == 0x85
    || c == 0xa0
    || c == 0x1680
    || (leb 0x2000 c && leb c 0x200a)
    || c == 0x2028
    || c == 0x2029
    || c == 0x202f
    || c == 0x205f
    || c == 0x3000

abbrev pub is_digit : ℕ → Bool
is_digit c = leb b'0' c && leb c b'9'

-- The input after the literal prefix; `none` where it does not match.
pub after_prefix : List ℕ → List ℕ → Option (List ℕ)
after_prefix [] input = some input
after_prefix (p ∷ ps) [] = none
after_prefix (p ∷ ps) (c ∷ input) = if p == c then after_prefix ps input else none

-- A newline is an error of Sscanf.
pub skip_space : List ℕ → Option (List ℕ)
skip_space [] = some []
skip_space (c ∷ input) =
    let rest = skip_space input in
    if c == 0xa then none else if is_space c then rest else some (c ∷ input)

-- The value of the digits at the front.
pub scan_digits : ℕ → List ℕ → ℕ
scan_digits n [] = n
scan_digits n (c ∷ input) =
    let rest = scan_digits (n * 10 + (c - b'0')) input in if is_digit c then rest else n

-- At least one digit, then the range of int32.
pub scan_natural : List ℕ → Option ℕ
scan_natural [] = none
scan_natural (c ∷ input) = if is_digit c then some (scan_digits 0 (c ∷ input)) else none

abbrev pub int32_half : ℕ
int32_half = 2 ^ 31

abbrev negate : ℕ → ℤ
negate zero = pos zero
negate (suc n) = negsuc n

pub non_negative : Option ℕ → Option ℤ
non_negative none = none
non_negative (some n) = if ltb n int32_half then some (pos n) else none

pub non_positive : Option ℕ → Option ℤ
non_positive none = none
non_positive (some n) = if leb n int32_half then some (negate n) else none

pub scan_signed : List ℕ → Option ℤ
scan_signed [] = none
scan_signed (c ∷ input) =
    if c == b'+'
    then non_negative (scan_natural input)
    else if c == b'-'
    then non_positive (scan_natural input)
    else non_negative (scan_natural (c ∷ input))

abbrev skipped : Option (List ℕ) → Option ℤ
skipped none = none
skipped (some input) = scan_signed input

abbrev matched : Option (List ℕ) → Option ℤ
matched none = none
matched (some input) = skipped (skip_space input)

abbrev pub subject_prefix : List ℕ
subject_prefix = codes "CHARACTER:EVE:"

unfoldable pub scan_character_id : List ℕ → Option ℤ
unfolding is_space after_prefix skip_space scan_digits scan_natural non_negative non_positive
    scan_signed
scan_character_id input = matched (after_prefix subject_prefix input)

-- The number that a list of digits is written for.
abbrev pub decimal : ℕ → List ℕ → ℕ
decimal n [] = n
decimal n (d ∷ ds) = decimal (n * 10 + (d - b'0')) ds

-- What may follow the digits: nothing, or something that is no digit.
abbrev pub IsNoDigit : List ℕ → Type 0
IsNoDigit [] = Unit
IsNoDigit (c ∷ cs) = is_digit c ≡ false

scan_digits-decimal :
    (n : ℕ) (ds rest : List ℕ)
    → All (λ d. is_digit d ≡ true) ds
    → IsNoDigit rest
    → scan_digits n (ds ++ rest) ≡ decimal n ds
unfolding scan_digits
scan_digits-decimal n [] [] h r = refl
scan_digits-decimal n [] (c ∷ rest) h r = rw r refl
scan_digits-decimal n (d ∷ ds) rest h r =
    rw h.0 (scan_digits-decimal (n * 10 + (d - b'0')) ds rest h.1 r)

after_prefix-append : (ps input : List ℕ) → after_prefix ps (ps ++ input) ≡ some input
unfolding after_prefix
after_prefix-append [] input = refl
after_prefix-append (p ∷ ps) input = ground (arith, after_prefix-append ps input)

-- A digit is no space, no newline and no sign.
digit_first :
    (d : ℕ) (ds : List ℕ)
    → is_digit d ≡ true
    → (skip_space (d ∷ ds) ≡ some (d ∷ ds))
      × (scan_signed (d ∷ ds) ≡ non_negative (scan_natural (d ∷ ds)))
unfolding skip_space scan_signed is_space
digit_first d ds h = (ground arith, ground arith)

scan_natural-decimal :
    (d : ℕ) (ds rest : List ℕ)
    → All (λ c. is_digit c ≡ true) (d ∷ ds)
    → IsNoDigit rest
    → scan_natural (d ∷ ds ++ rest) ≡ some (decimal 0 (d ∷ ds))
unfolding scan_natural
scan_natural-decimal d ds rest h r = rw (h.0, scan_digits-decimal 0 (d ∷ ds) rest h r) refl

scan_signed-decimal :
    (d : ℕ) (ds rest : List ℕ)
    → All (λ c. is_digit c ≡ true) (d ∷ ds)
    → IsNoDigit rest
    → scan_signed (d ∷ ds ++ rest) ≡ non_negative (some (decimal 0 (d ∷ ds)))
scan_signed-decimal d ds rest h r =
    rw ((digit_first d (ds ++ rest) h.0).1, scan_natural-decimal d ds rest h r) refl

scan_decimal :
    (d : ℕ) (ds rest : List ℕ)
    → All (λ c. is_digit c ≡ true) (d ∷ ds)
    → IsNoDigit rest
    → matched (some (d ∷ ds ++ rest)) ≡ non_negative (some (decimal 0 (d ∷ ds)))
scan_decimal d ds rest h r =
    rw ((digit_first d (ds ++ rest) h.0).0) (scan_signed-decimal d ds rest h r)

-- A subject that is the prefix, at least one digit, and anything that does not begin with a digit, gives
-- the number that the digits are written for if it is below 2^31, and is refused otherwise.
pub scan_character_id-decimal :
    (d : ℕ) (ds rest : List ℕ)
    → All (λ c. is_digit c ≡ true) (d ∷ ds)
    → IsNoDigit rest
    → scan_character_id (subject_prefix ++ (d ∷ ds ++ rest))
      ≡ (if ltb (decimal 0 (d ∷ ds)) int32_half then some (pos (decimal 0 (d ∷ ds))) else none)
unfolding scan_character_id
scan_character_id-decimal d ds rest h r =
    rw (after_prefix-append subject_prefix (d ∷ ds ++ rest), scan_decimal d ds rest h r) refl

-- The numbers of int32.
abbrev pub InInt32 : ℤ → Type 0
InInt32 (pos n) = n < int32_half
InInt32 (negsuc n) = n < int32_half

non_negative-InInt32 : (o : Option ℕ) (z : ℤ) → non_negative o ≡ some z → InInt32 z
unfolding non_negative
non_negative-InInt32 none z h = ground (arith, h)
non_negative-InInt32 (some n) z h = elim (Bool-cases (ltb n int32_half)) [
  | inl e ↦ let same : pos n ≡ z = ground (arith, rw e at h) in rw (← same) (ground (arith, e))
  | inr e ↦ ground (arith, rw e at h)
]

negate-InInt32 : (n : ℕ) → n ≤ int32_half → InInt32 (negate n)
negate-InInt32 zero h = omega arith
negate-InInt32 (suc n) h = omega arith

non_positive-InInt32 : (o : Option ℕ) (z : ℤ) → non_positive o ≡ some z → InInt32 z
unfolding non_positive
non_positive-InInt32 none z h = ground (arith, h)
non_positive-InInt32 (some n) z h = elim (Bool-cases (leb n int32_half)) [
  | inl e ↦
      let same : negate n ≡ z = ground (arith, rw e at h) in
      rw (← same) (negate-InInt32 n (ground (arith, e)))
  | inr e ↦ ground (arith, rw e at h)
]

scan_signed-InInt32 : (input : List ℕ) (z : ℤ) → scan_signed input ≡ some z → InInt32 z
unfolding scan_signed
scan_signed-InInt32 [] z h = ground (arith, h)
scan_signed-InInt32 (c ∷ input) z h = elim (Bool-cases (c == b'+')) [
  | inl plus ↦ non_negative-InInt32 (scan_natural input) z (rw plus at h)
  | inr e ↦ elim (Bool-cases (c == b'-')) [
    | inl minus ↦ non_positive-InInt32 (scan_natural input) z (rw (e, minus) at h)
    | inr e' ↦ non_negative-InInt32 (scan_natural (c ∷ input)) z (rw (e, e') at h)
  ]
]

skipped-InInt32 : (o : Option (List ℕ)) (z : ℤ) → skipped o ≡ some z → InInt32 z
skipped-InInt32 none z h = ground (arith, h)
skipped-InInt32 (some input) z h = scan_signed-InInt32 input z h

matched-InInt32 : (o : Option (List ℕ)) (z : ℤ) → matched o ≡ some z → InInt32 z
matched-InInt32 none z h = ground (arith, h)
matched-InInt32 (some input) z h = skipped-InInt32 (skip_space input) z h

-- Whatever the subject is, a character id that is read from it is a number of int32.
pub scan_character_id-InInt32 :
    (input : List ℕ) (z : ℤ) → scan_character_id input ≡ some z → InInt32 z
unfolding scan_character_id
scan_character_id-InInt32 input z h = matched-InInt32 (after_prefix subject_prefix input) z h
