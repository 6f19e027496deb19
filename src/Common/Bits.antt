-- ===== src/Common/Bits.antt =====
-- The binary digits of a word: `test_bit w i` is bit `i` of `w`, and the digits of `&`, `|` and
-- `1 << b` as Boolean functions of the digits of the operands.
use Prim.Native.Nat.{
  ℕ, zero, suc, ◌+◌, ◌*◌, ◌/◌, ◌%◌, ◌^◌, ◌≤◌, ◌<◌, ◌-◌, min, max, bit_and, bit_or, digits,
  bit_and-bitwise, bit_or-bitwise,
}
use mathlib.Core.Path.{◌≡◌, refl, ap}
use mathlib.Core.Bool.{Bool, false, ◌&&◌, ◌||◌}
use native.Mathlib.Omega.{arith}
use native.Mathlib.Nat.{pow-suc, pow-succ', one-le-pow}
use real_time_policy_authori.Common.Tests.{◌==◌, ltb, if◌then◌else◌}

-- `(w >> i) & 1`, as a truth value
pub test_bit : ℕ → ℕ → Bool
test_bit w zero = w % 2 == 1
test_bit w (suc i) = test_bit (w / 2) i

abbrev and_rec : ℕ → ℕ → ℕ → ℕ
and_rec n a b = digits (λ b. zero) min n a b

and_rec_fuel : (n m a b : ℕ) → a ≤ n → a ≤ m → and_rec n a b ≡ and_rec m a b
and_rec_fuel zero zero a b p q = refl
and_rec_fuel zero (suc m) zero b p q = refl
and_rec_fuel zero (suc m) (suc a) b p q = absurd (omega arith)
and_rec_fuel (suc n) zero zero b p q = refl
and_rec_fuel (suc n) zero (suc a) b p q = absurd (omega arith)
and_rec_fuel (suc n) (suc m) zero b p q = refl
and_rec_fuel (suc n) (suc m) (suc a) b p q =
    omega (arith, and_rec_fuel n m (suc a / 2) (b / 2) (omega arith) (omega arith))

abbrev or_rec : ℕ → ℕ → ℕ → ℕ
or_rec n a b = digits (λ b. b) max n a b

or_rec_fuel : (n m a b : ℕ) → a ≤ n → a ≤ m → or_rec n a b ≡ or_rec m a b
or_rec_fuel zero zero a b p q = refl
or_rec_fuel zero (suc m) zero b p q = refl
or_rec_fuel zero (suc m) (suc a) b p q = absurd (omega arith)
or_rec_fuel (suc n) zero zero b p q = refl
or_rec_fuel (suc n) zero (suc a) b p q = absurd (omega arith)
or_rec_fuel (suc n) (suc m) zero b p q = refl
or_rec_fuel (suc n) (suc m) (suc a) b p q =
    omega (arith, or_rec_fuel n m (suc a / 2) (b / 2) (omega arith) (omega arith))

pub bit_and_digit : (a b : ℕ) → bit_and a b ≡ bit_and (a / 2) (b / 2) * 2 + min (a % 2) (b % 2)
bit_and_digit zero b = omega (arith, bit_and-bitwise 0 b, bit_and-bitwise 0 (b / 2))
bit_and_digit (suc a) b = omega (
  arith,
  bit_and-bitwise (suc a) b,
  bit_and-bitwise (suc a / 2) (b / 2),
  and_rec_fuel a (suc a / 2) (suc a / 2) (b / 2) (omega arith) (omega arith),
)

pub bit_or_digit : (a b : ℕ) → bit_or a b ≡ bit_or (a / 2) (b / 2) * 2 + max (a % 2) (b % 2)
bit_or_digit zero b = omega (arith, bit_or-bitwise 0 b, bit_or-bitwise 0 (b / 2))
bit_or_digit (suc a) b = omega (
  arith,
  bit_or-bitwise (suc a) b,
  bit_or-bitwise (suc a / 2) (b / 2),
  or_rec_fuel a (suc a / 2) (suc a / 2) (b / 2) (omega arith) (omega arith),
)

bit_and-half : (a b : ℕ) → bit_and a b / 2 ≡ bit_and (a / 2) (b / 2)
bit_and-half a b = omega (arith, bit_and_digit a b)

bit_or-half : (a b : ℕ) → bit_or a b / 2 ≡ bit_or (a / 2) (b / 2)
bit_or-half a b = omega (arith, bit_or_digit a b)

pub test_bit-bit_and : (a b i : ℕ) → test_bit (bit_and a b) i ≡ (test_bit a i && test_bit b i)
unfolding test_bit
test_bit-bit_and a b zero = ground (arith, bit_and_digit a b)
test_bit-bit_and a b (suc i) = rw (bit_and-half a b) (test_bit-bit_and (a / 2) (b / 2) i)

pub test_bit-bit_or : (a b i : ℕ) → test_bit (bit_or a b) i ≡ (test_bit a i || test_bit b i)
unfolding test_bit
test_bit-bit_or a b zero = ground (arith, bit_or_digit a b)
test_bit-bit_or a b (suc i) = rw (bit_or-half a b) (test_bit-bit_or (a / 2) (b / 2) i)

pub test_bit-zero : (i : ℕ) → test_bit 0 i ≡ false
unfolding test_bit
test_bit-zero zero = refl
test_bit-zero (suc i) = test_bit-zero i

pow-half : (b : ℕ) → 2 ^ suc b / 2 ≡ 2 ^ b
pow-half b = omega (arith, pow-suc 2 b)

pub test_bit-pow : (b i : ℕ) → test_bit (2 ^ b) i ≡ (b == i)
unfolding test_bit
test_bit-pow zero zero = refl
test_bit-pow zero (suc i) = ground (arith, test_bit-zero i)
test_bit-pow (suc b) zero = ground (arith, pow-suc 2 b)
test_bit-pow (suc b) (suc i) = rw (pow-half b) (ground (arith, test_bit-pow b i))

ext_below : (n a b : ℕ) → a ≤ n → b ≤ n → ((i : ℕ) → test_bit a i ≡ test_bit b i) → a ≡ b
unfolding test_bit
ext_below zero a b p q h = omega arith
ext_below (suc n) a b p q h =
    let halves = ext_below n (a / 2) (b / 2) (omega arith) (omega arith) (λ i. h (suc i)) in
    ground (arith, halves, h 0)

-- A word is determined by its bits.
pub bits_ext : (a b : ℕ) → ((i : ℕ) → test_bit a i ≡ test_bit b i) → a ≡ b
bits_ext a b h = ext_below (max a b) a b (omega arith) (omega arith) h

bit_or-zero_below : (n a : ℕ) → a ≤ n → bit_or a 0 ≡ a
bit_or-zero_below n zero h = bit_or-bitwise 0 0
bit_or-zero_below zero (suc a) h = absurd (omega arith)
bit_or-zero_below (suc n) (suc a) h =
    omega (arith, bit_or_digit (suc a) 0, bit_or-zero_below n (suc a / 2) (omega arith))

pub bit_or-zero : (a : ℕ) → bit_or a 0 ≡ a
bit_or-zero a = bit_or-zero_below a a (omega arith)

double-pow : (q k : ℕ) → q * 2 ^ suc k ≡ 2 * (q * 2 ^ k)
double-pow q k = omega (arith, ap (λ (t : ℕ). q * t) (pow-suc 2 k))

-- `(q << k) | r` is a sum where `r` has `k` bits.
pub bit_or_shifted : (k q r : ℕ) → r < 2 ^ k → bit_or (q * 2 ^ k) r ≡ q * 2 ^ k + r
bit_or_shifted zero q r h =
    let none_left : r ≡ 0 = omega arith in rw none_left (omega (arith, bit_or-zero (q * 2 ^ 0)))
bit_or_shifted (suc k) q r h =
    let half : q * 2 ^ suc k / 2 ≡ q * 2 ^ k = omega (arith, double-pow q k) in
    let rest = bit_or_shifted k q (r / 2) (omega (arith, pow-suc 2 k)) in
    rw (bit_or_digit (q * 2 ^ suc k) r, half, rest) (omega (arith, double-pow q k))

mod-double : (p x : ℕ) → 0 < p → x % (2 * p) ≡ 2 * (x / 2 % p) + x % 2
mod-double p x h = grind arith

-- `x & (2^k - 1)` is the remainder.
pub bit_and_low : (k x : ℕ) → bit_and x (2 ^ k - 1) ≡ x % 2 ^ k
bit_and_low zero x = bits_ext _ _ (λ i. ground (arith, test_bit-bit_and x 0 i, test_bit-zero i))
bit_and_low (suc k) x =
    let half : (2 ^ suc k - 1) / 2 ≡ 2 ^ k - 1 = omega (arith, pow-suc 2 k) in
    let digit : (2 ^ suc k - 1) % 2 ≡ 1 =
      omega (arith, pow-suc 2 k, one-le-pow k 2 (omega arith)) in
    rw (bit_and_digit x (2 ^ suc k - 1), half, digit, bit_and_low k (x / 2), pow-succ' 2 k)
      (omega (arith, mod-double (2 ^ k) x (one-le-pow k 2 (omega arith))))

-- `f |= 1 << b`, under a test
unfoldable pub set_if : Bool → ℕ → ℕ → ℕ
set_if c b f = if c then bit_or f (2 ^ b) else f

pub test_bit-set_if :
    (c : Bool) (b f i : ℕ) → test_bit (set_if c b f) i ≡ (test_bit f i || c && b == i)
unfolding set_if
test_bit-set_if c b f i = ground (arith, test_bit-bit_or f (2 ^ b) i, test_bit-pow b i)

bit_and-zero_below : (n a : ℕ) → a ≤ n → bit_and a 0 ≡ 0
bit_and-zero_below n zero h = bit_and-bitwise 0 0
bit_and-zero_below zero (suc a) h = absurd (omega arith)
bit_and-zero_below (suc n) (suc a) h =
    omega (arith, bit_and_digit (suc a) 0, bit_and-zero_below n (suc a / 2) (omega arith))

pub bit_and-zero : (a : ℕ) → bit_and a 0 ≡ 0
bit_and-zero a = bit_and-zero_below a a (omega arith)

-- `(x & (1 << b)) != 0`
pub bit_and-pow : (b x : ℕ) → bit_and x (2 ^ b) ≡ (if test_bit x b then 2 ^ b else 0)
unfolding test_bit
bit_and-pow zero x = ground (arith, bit_and_digit x 1, bit_and-zero (x / 2))
bit_and-pow (suc b) x =
    let half : 2 ^ suc b / 2 ≡ 2 ^ b = pow-half b in
    let even : 2 ^ suc b % 2 ≡ 0 = omega (arith, pow-suc 2 b) in
    rw (bit_and_digit x (2 ^ suc b), half, even, bit_and-pow b (x / 2))
      (ground (arith, pow-suc 2 b))

-- `~a` on `n` bits
pub test_bit-complement :
    (n a i : ℕ) → a < 2 ^ n → test_bit (2 ^ n - 1 - a) i ≡ (if test_bit a i then false else ltb i n)
unfolding test_bit
test_bit-complement zero a i h =
    let none_left : a ≡ 0 = omega arith in rw none_left (ground (arith, test_bit-zero i))
test_bit-complement (suc n) a zero h = ground (arith, pow-suc 2 n)
test_bit-complement (suc n) a (suc i) h =
    let half : (2 ^ suc n - 1 - a) / 2 ≡ 2 ^ n - 1 - a / 2 = omega (arith, pow-suc 2 n) in
    rw half (ground (arith, test_bit-complement n (a / 2) i (omega (arith, pow-suc 2 n))))

pub high_bit : (n a i : ℕ) → a < 2 ^ n → n ≤ i → test_bit a i ≡ false
unfolding test_bit
high_bit zero a i h k = let none_left : a ≡ 0 = omega arith in rw none_left (test_bit-zero i)
high_bit (suc n) a zero h k = absurd (omega arith)
high_bit (suc n) a (suc i) h k = high_bit n (a / 2) i (omega (arith, pow-suc 2 n)) (omega arith)
