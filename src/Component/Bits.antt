-- ===== src/Component/Bits.antt =====
-- `keyEncodeIndex` and `keyDecodeIndex` of component.cpp. A `size_t` has 64 digits.
-- `std::bitset` reads a text by its first 64 characters, and throws if any character is not 0 or 1.
use janosh.Common.{
  ℕ, zero, suc, ◌+◌, ◌-◌, ◌*◌, ◌/◌, ◌%◌, ◌^◌, ◌≤◌, ◌<◌, All, bytes_lt, ltb, [], ◌∷◌, Bool, true,
  ◌||◌, ◌&&◌, ◌≡◌, refl, ap, ◌∙◌, Bytes, ◌==◌, if◌then◌else◌, arith,
}
use mathlib.Core.Path.{ap₂}
use native.Mathlib.Nat.{div-add-mod, add-mul-mod_self_left, mod-eq_of_lt, mod-lt, pow-succ'}
use janosh.Result.{Result, ok, err, invalid_argument}

abbrev pub digits : ℕ
digits = 64

-- `bitset::to_string`: the highest of `k` bits stands first.
unfoldable pub bits : ℕ → ℕ → Bytes
bits zero n = []
bits (suc k) n = (b'0' + n / 2 ^ k % 2) ∷ bits k n

unfoldable pub key_encode_index : ℕ → Bytes
unfolding bits
key_encode_index n = bits digits n

unfoldable pub all_bits : Bytes → Bool
all_bits [] = true
all_bits (c ∷ s) = (c == b'0' || c == b'1') && all_bits s

-- The value of the first `k` characters, behind the value `acc` of those before.
unfoldable pub bits_value : ℕ → Bytes → ℕ → ℕ
bits_value zero s acc = acc
bits_value (suc k) [] acc = acc
bits_value (suc k) (c ∷ s) acc = bits_value k s (acc * 2 + (c - b'0'))

unfoldable pub key_decode_index : Bytes → Result ℕ
unfolding all_bits bits_value
key_decode_index s = if all_bits s then ok (bits_value digits s 0) else err invalid_argument

all_bits-bits : (k n : ℕ) → all_bits (bits k n) ≡ true
unfolding all_bits bits
all_bits-bits zero n = refl
all_bits-bits (suc k) n = ground (arith, all_bits-bits k n)

-- One more bit: the modulus doubles.
split_double : (m n : ℕ) → n ≡ (n / m % 2 * m + n % m) + 2 * m * (n / m / 2)
split_double m n =
    let q = n / m in
    let lifted : q * m ≡ (q / 2 * 2 + q % 2) * m = ap (λ (t : ℕ). t * m) (omega arith) in
    omega (arith, div-add-mod n m, lifted)

below_double : (b m r : ℕ) → b < 2 → r < m → b * m + r < 2 * m
below_double b m r hb hr = grind arith

mod_double : (m n : ℕ) → 0 < m → n % (2 * m) ≡ n / m % 2 * m + n % m
mod_double m n h =
    let low = n / m % 2 * m + n % m in
    ap (λ (t : ℕ). t % (2 * m)) (split_double m n)
    ∙ (add-mul-mod_self_left low (2 * m) (n / m / 2)
        ∙ mod-eq_of_lt (below_double (n / m % 2) m (n % m) (omega arith) (mod-lt n h)))

pow_pos : (k : ℕ) → 0 < 2 ^ k
pow_pos zero = omega arith
pow_pos (suc k) = omega (arith, pow-succ' 2 k, pow_pos k)

-- What the first `k + 1` bits add to the first `k`.
mod_pow : (k n : ℕ) → n % 2 ^ suc k ≡ n / 2 ^ k % 2 * 2 ^ k + n % 2 ^ k
mod_pow k n = ap (λ (t : ℕ). n % t) (pow-succ' 2 k) ∙ mod_double (2 ^ k) n (pow_pos k)

bits_value-bits : (k n acc : ℕ) → bits_value k (bits k n) acc ≡ acc * 2 ^ k + n % 2 ^ k
unfolding bits bits_value
bits_value-bits zero n acc = omega arith
bits_value-bits (suc k) n acc =
    let b = n / 2 ^ k % 2 in
    let next : acc * 2 + (b'0' + b - b'0') ≡ acc * 2 + b = omega arith in
    bits_value-bits k n (acc * 2 + (b'0' + b - b'0'))
    ∙ (ap (λ (t : ℕ). t * 2 ^ k + n % 2 ^ k) next
        ∙ omega (arith, mod_pow k n, ap (λ (t : ℕ). acc * t) (pow-succ' 2 k)))

-- A `size_t` is read back from its bits.
pub key_decode_index-key_encode_index :
    (n : ℕ) → n < 2 ^ 64 → key_decode_index (key_encode_index n) ≡ ok n
unfolding key_decode_index key_encode_index
key_decode_index-key_encode_index n h =
    rw (all_bits-bits digits n) (ap ok (bits_value-bits digits n 0 ∙ omega (arith, mod-eq_of_lt h)))

bits_lt-bits : (k n m : ℕ) → bytes_lt (bits k n) (bits k m) ≡ ltb (n % 2 ^ k) (m % 2 ^ k)
unfolding bytes_lt bits
bits_lt-bits zero n m = ground arith
bits_lt-bits (suc k) n m = ground (
  arith,
  bits_lt-bits k n m,
  mod_pow k n,
  mod_pow k m,
  mod-lt n (pow_pos k),
  mod-lt m (pow_pos k),
)

-- The texts of two sizes are ordered as the sizes are.
pub bytes_lt-key_encode_index :
    (n m : ℕ)
    → n < 2 ^ 64
    → m < 2 ^ 64
    → bytes_lt (key_encode_index n) (key_encode_index m) ≡ ltb n m
unfolding key_encode_index
bytes_lt-key_encode_index n m hn hm =
    bits_lt-bits digits n m ∙ ap₂ ltb (mod-eq_of_lt hn) (mod-eq_of_lt hm)

abbrev pub IsBit : ℕ → Type 0
IsBit c = (b'0' ≤ c) × (c ≤ b'1')

pub bits-IsBit : (k n : ℕ) → All IsBit (bits k n)
unfolding bits
bits-IsBit zero n = tt
bits-IsBit (suc k) n = ((omega arith, omega arith), bits-IsBit k n)

pub all_bits-IsBit : (s : Bytes) → all_bits s ≡ true → All IsBit s
unfolding all_bits
all_bits-IsBit [] h = tt
all_bits-IsBit (c ∷ s) h = (ground arith, all_bits-IsBit s (ground arith))
