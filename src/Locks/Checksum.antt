-- ===== src/Locks/Checksum.antt =====
-- crc32.ChecksumIEEE of hash/crc32, bit by bit, and the bytes of a Go string.
use Prim.Native.Char.{code}
use Prim.Native.Nat.{bit_xor, bit_xor-bitwise, digits, differ}
use native.Mathlib.Nat.{pow-suc}
use evesso.Prelude.{
  ◌+◌, ◌-◌, ◌/◌, ◌%◌, ◌^◌, ◌<◌, ◌==◌, ℕ, zero, suc, String, List, [], ◌∷◌, ◌++◌, ltb, if◌then◌else◌,
  arith, All,
}

-- UTF-8
abbrev pub utf8_char : ℕ → List ℕ
utf8_char c =
    if ltb c 0x80
    then c ∷ []
    else if ltb c 0x800
    then (0xc0 + c / 64) ∷ (0x80 + c % 64) ∷ []
    else if ltb c 0x10000
    then (0xe0 + c / 4096) ∷ (0x80 + c / 64 % 64) ∷ (0x80 + c % 64) ∷ []
    else (0xf0 + c / 262144) ∷ (0x80 + c / 4096 % 64) ∷ (0x80 + c / 64 % 64) ∷ (0x80 + c % 64) ∷ []

unfoldable pub utf8 : String → List ℕ
utf8 String.[] = []
utf8 (String.◌∷◌ c s) = utf8_char (code c) ++ utf8 s

-- The reversed polynomial of IEEE 802.3
abbrev polynomial : ℕ
polynomial = 0xedb88320

abbrev shift_bit : ℕ → ℕ
shift_bit crc = if crc % 2 == 1 then bit_xor (crc / 2) polynomial else crc / 2

pub shift_bits : ℕ → ℕ → ℕ
shift_bits zero crc = crc
shift_bits (suc n) crc = shift_bits n (shift_bit crc)

pub update : ℕ → List ℕ → ℕ
update crc [] = crc
update crc (b ∷ bs) = update (shift_bits 8 (bit_xor crc b)) bs

abbrev all_ones : ℕ
all_ones = 2 ^ 32 - 1

unfoldable pub checksum_ieee : List ℕ → ℕ
unfolding shift_bits update
checksum_ieee input = bit_xor (update all_ones input) all_ones

digit-lt : (a b : ℕ) → a < 2 → b < 2 → differ a b < 2
digit-lt zero b h k = k
digit-lt (suc zero) zero h k = omega arith
digit-lt (suc zero) (suc zero) h k = omega arith
digit-lt (suc zero) (suc (suc b)) h k = absurd (omega arith)
digit-lt (suc (suc a)) b h k = absurd (omega arith)

digits-lt : (k n a b : ℕ) → a < 2 ^ k → b < 2 ^ k → digits (λ y. y) differ n a b < 2 ^ k
digits-lt k zero a b ha hb = hb
digits-lt k (suc n) zero b ha hb = hb
digits-lt zero (suc n) (suc a) b ha hb = absurd (omega arith)
digits-lt (suc k) (suc n) (suc a) b ha hb =
    let rest =
      digits-lt k n (suc a / 2) (b / 2) (omega (arith, pow-suc 2 k)) (omega (arith, pow-suc 2 k)) in
    let last = digit-lt (suc a % 2) (b % 2) (omega arith) (omega arith) in
    omega (arith, pow-suc 2 k)

pub bit_xor-lt : (k a b : ℕ) → a < 2 ^ k → b < 2 ^ k → bit_xor a b < 2 ^ k
bit_xor-lt k a b ha hb = simp bit_xor-bitwise (digits-lt k a a b ha hb)

shift_bits-lt : (n crc : ℕ) → crc < 2 ^ 32 → shift_bits n crc < 2 ^ 32
unfolding shift_bits
shift_bits-lt zero crc h = h
shift_bits-lt (suc n) crc h =
    shift_bits-lt n (shift_bit crc)
      (ground (arith, bit_xor-lt 32 (crc / 2) polynomial (omega arith) (omega arith)))

update-lt : (crc : ℕ) (bs : List ℕ) → crc < 2 ^ 32 → All (λ b. b < 256) bs → update crc bs < 2 ^ 32
unfolding update
update-lt crc [] h k = h
update-lt crc (b ∷ bs) h k =
    update-lt (shift_bits 8 (bit_xor crc b)) bs
      (shift_bits-lt 8 (bit_xor crc b) (bit_xor-lt 32 crc b h (omega arith))) k.1

-- The checksum of bytes is a number of uint32, so that it is one of bigint too.
pub checksum_ieee-lt : (bs : List ℕ) → All (λ b. b < 256) bs → checksum_ieee bs < 2 ^ 32
unfolding checksum_ieee
checksum_ieee-lt bs h =
    bit_xor-lt 32 (update all_ones bs) all_ones (update-lt all_ones bs (omega arith) h)
      (omega arith)
