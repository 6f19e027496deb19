-- ===== src/Imsi/Luhn.antt =====
-- The Luhn checksum, against its definition on the decimal digits.
use real_time_policy_authori.Common.{
  ℕ, zero, suc, ◌+◌, ◌-◌, ◌*◌, ◌/◌, ◌%◌, ◌<◌, ◌≤◌, ◌≡◌, refl, sym, inl, inr, Bool, true, false, not,
  List, [], ◌∷◌, length, arith, ◌==◌, if◌then◌else◌, Bool-cases,
}
use real_time_policy_authori.Imsi.{doubled, luhn_sum, imei_luhn_valid}

luhn_shift :
    (fuel imei : ℕ) (dbl : Bool) (sum : ℕ)
    → luhn_sum fuel imei dbl sum ≡ sum + luhn_sum fuel imei dbl 0
unfolding luhn_sum
luhn_shift zero imei dbl sum = omega arith
luhn_shift (suc fuel) imei dbl sum =
    let digit = if dbl then doubled (imei % 10) else imei % 10 in
    ground (
      arith,
      luhn_shift fuel (imei / 10) (not dbl) (sum + digit),
      luhn_shift fuel (imei / 10) (not dbl) (0 + digit),
    )

luhn_of_zero : (fuel : ℕ) (dbl : Bool) → luhn_sum fuel 0 dbl 0 ≡ 0
unfolding luhn_sum
luhn_of_zero zero dbl = refl
luhn_of_zero (suc fuel) dbl = refl

-- a number from its decimal digits, the last digit first
pub from_digits : List ℕ → ℕ
from_digits [] = 0
from_digits (d ∷ ds) = d + 10 * from_digits ds

abbrev pub AreDecimal : List ℕ → Type 0
AreDecimal [] = Unit
AreDecimal (d ∷ ds) = (d < 10) × AreDecimal ds

-- The checksum as it is worked out on paper: every second digit is doubled, and the digits of what
-- comes out are added up. `doubles` says whether the last digit is one of those.
pub checksum : Bool → List ℕ → ℕ
checksum doubles [] = 0
checksum false (d ∷ ds) = d + checksum true ds
checksum true (d ∷ ds) = (2 * d / 10 + 2 * d % 10) + checksum false ds

-- the digit that completes a number
abbrev pub check_digit : List ℕ → ℕ
check_digit ds = (10 - checksum true ds % 10) % 10

-- a number that is 0 has only zeros among its digits
checksum-zero :
    (dbl : Bool) (ds : List ℕ) → AreDecimal ds → from_digits ds ≡ 0 → checksum dbl ds ≡ 0
unfolding checksum from_digits
checksum-zero dbl [] h z = refl
checksum-zero false (d ∷ ds) (h, hs) z = omega (arith, checksum-zero true ds hs (omega arith))
checksum-zero true (d ∷ ds) (h, hs) z = omega (arith, checksum-zero false ds hs (omega arith))

checksum-cons :
    (dbl : Bool) (d : ℕ) (ds : List ℕ)
    → d < 10
    → checksum dbl (d ∷ ds) ≡ (if dbl then doubled d else d) + checksum (not dbl) ds
unfolding checksum
checksum-cons true d ds h = ground arith
checksum-cons false d ds h = refl

luhn_sum-checksum :
    (fuel : ℕ) (ds : List ℕ) (dbl : Bool)
    → AreDecimal ds
    → length ds ≤ fuel
    → luhn_sum fuel (from_digits ds) dbl 0 ≡ checksum dbl ds
unfolding luhn_sum from_digits
luhn_sum-checksum fuel [] dbl h le = unfold checksum in luhn_of_zero fuel dbl
luhn_sum-checksum zero (d ∷ ds) dbl h le = absurd (omega arith)
luhn_sum-checksum (suc fuel) (d ∷ ds) dbl (h, hs) le =
    let value = from_digits ds in
    let front : (d + 10 * value) / 10 ≡ value = omega arith in
    let last : (d + 10 * value) % 10 ≡ d = omega arith in
    let digit = if dbl then doubled d else d in
    let rest = luhn_shift fuel value (not dbl) (0 + digit) in
    let ih = luhn_sum-checksum fuel ds (not dbl) hs (omega arith) in
    elim (Bool-cases (d + 10 * value == 0)) [
      | inl z ↦ rw z (sym (checksum-zero dbl (d ∷ ds) (h, hs) (ground arith)))
      | inr nz ↦ rw (front, last, nz) (omega (arith, rest, ih, checksum-cons dbl d ds h))
    ]

-- For every number of at most 20 decimal digits, leading zeros allowed, the test is true exactly
-- if the checksum that doubles every second digit, from the last but one on, and adds up the
-- digits of the products is a multiple of 10; and of the ten numbers that differ in the last digit
-- only, exactly the one that ends in the check digit of the others passes.
pub imei_luhn_valid_lem :
    (d : ℕ) (ds : List ℕ)
    → AreDecimal (d ∷ ds)
    → length ds < 20
    → (imei_luhn_valid (from_digits (d ∷ ds)) ≡ (checksum false (d ∷ ds) % 10 == 0))
      × (imei_luhn_valid (from_digits (d ∷ ds)) ≡ (d == check_digit ds))
      × (check_digit ds < 10)
unfolding imei_luhn_valid
imei_luhn_valid_lem d ds h le =
    let sum = luhn_sum-checksum 20 (d ∷ ds) false h (omega arith) in
    let digit = checksum-cons false d ds h.0 in
    (rw sum refl, rw sum (ground (arith, digit)), omega arith)
