-- ===== src/Hdr/Magnitude.antt =====
-- The place of the highest bit.
use native.Mathlib.Nat.{pow-suc, one-le-pow}
use real_time_policy_authori.Common.{
  ℕ, zero, suc, ◌/◌, ◌^◌, max, ◌<◌, ◌≤◌, ◌≡◌, refl, ap, ◌∙◌, arith, inl, inr, ◌==◌, bit_or,
  Bool-cases,
}
use real_time_policy_authori.Common.Bits.{bit_or_digit}
use real_time_policy_authori.Hdr.{bit_length}

pub bit_length-le : (fuel n v : ℕ) → v < 2 ^ n → bit_length fuel v ≤ n
unfolding bit_length
bit_length-le zero n v h = omega arith
bit_length-le (suc fuel) zero v h = ground arith
bit_length-le (suc fuel) (suc n) v h =
    ground (arith, bit_length-le fuel n (v / 2) (omega (arith, pow-suc 2 n)))

pub bit_length-lt : (fuel n v : ℕ) → n < fuel → 2 ^ n ≤ v → n < bit_length fuel v
unfolding bit_length
bit_length-lt zero n v h k = absurd (omega arith)
bit_length-lt (suc fuel) zero v h k = ground arith
bit_length-lt (suc fuel) (suc n) v h k = ground (
  arith,
  bit_length-lt fuel n (v / 2) (omega arith) (omega (arith, pow-suc 2 n)),
  one-le-pow (suc n) 2 (omega arith),
)

left-le-bit_or : (n a b : ℕ) → a ≤ n → a ≤ bit_or a b
left-le-bit_or zero a b h = omega arith
left-le-bit_or (suc n) zero b h = omega arith
left-le-bit_or (suc n) (suc a) b h =
    omega (arith, bit_or_digit (suc a) b, left-le-bit_or n (suc a / 2) (b / 2) (omega arith))

right-le-bit_or : (n a b : ℕ) → b ≤ n → b ≤ bit_or a b
right-le-bit_or zero a b h = omega arith
right-le-bit_or (suc n) a zero h = omega arith
right-le-bit_or (suc n) a (suc b) h =
    omega (arith, bit_or_digit a (suc b), right-le-bit_or n (a / 2) (suc b / 2) (omega arith))

-- The highest bit of a union is the higher of the two.
pub bit_length-bit_or :
    (fuel a b : ℕ) → bit_length fuel (bit_or a b) ≡ max (bit_length fuel a) (bit_length fuel b)
unfolding bit_length
bit_length-bit_or zero a b = refl
bit_length-bit_or (suc fuel) a b =
    let half : bit_or a b / 2 ≡ bit_or (a / 2) (b / 2) = omega (arith, bit_or_digit a b) in
    let rest : bit_length fuel (bit_or a b / 2)
        ≡ max (bit_length fuel (a / 2)) (bit_length fuel (b / 2)) =
      ap (bit_length fuel) half ∙ bit_length-bit_or fuel (a / 2) (b / 2) in
    let left = left-le-bit_or a a b (omega arith) in
    let right = right-le-bit_or b a b (omega arith) in
    elim (Bool-cases (a == 0)) [
      | inl za ↦ elim (Bool-cases (b == 0)) [
        | inl zb ↦
            let ea : a ≡ 0 = ground arith in
            let eb : b ≡ 0 = ground arith in
            let none_set : bit_or a b ≡ 0 = omega (arith, bit_or_digit a b, or_zero a b ea eb) in
            rw (none_set, ea, eb) refl
        | inr nb ↦ ground (arith, rest, right, bit_length_zero fuel (a / 2))
      ]
      | inr na ↦ ground (arith, rest, left, right, bit_length_zero fuel (b / 2))
    ]
  where
    or_zero : (a b : ℕ) → a ≡ 0 → b ≡ 0 → bit_or a b ≡ 0
    or_zero a b ea eb = rw (ea, eb) refl

    bit_length_zero : (fuel v : ℕ) → v ≡ 0 → bit_length fuel v ≡ 0
    bit_length_zero fuel v e = ap (bit_length fuel) e ∙ at_zero fuel
      where
        at_zero : (fuel : ℕ) → bit_length fuel 0 ≡ 0
        at_zero zero = refl
        at_zero (suc fuel) = refl
