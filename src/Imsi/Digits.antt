-- ===== src/Imsi/Digits.antt =====
-- Numbers written with a fixed count of digits, and read back.
use real_time_policy_authori.Common.{
  ℕ, zero, suc, ◌+◌, ◌-◌, ◌*◌, ◌/◌, ◌%◌, ◌^◌, ◌≤◌, ◌<◌, ◌≡◌, ◌↔◌, refl, sym, ap, ◌∙◌, some, [], ◌∷◌,
  arith, length,
}
use native.Mathlib.Nat.{pow-suc, pow-succ', one-le-pow, div-div-eq-div-mul, pow-le-pow_right}
use mathlib.Core.Option.{some-injective}
use real_time_policy_authori.Rules.{Text}
use real_time_policy_authori.Imsi.{
  read_digits, parse_digits, parse_imsi, write_digits, format_imsi, imsi_digits,
}

-- every byte is one of '0' to '9'
abbrev pub AreDigits : Text → Type 0
AreDigits [] = Unit
AreDigits (c ∷ s) = ((48 ≤ c) × (c ≤ 57)) × AreDigits s

-- the number that a text of digits denotes, with what was read before it
unfoldable pub decimal : ℕ → Text → ℕ
decimal v [] = v
decimal v (c ∷ s) = decimal (v * 10 + (c - 48)) s

decimal_split : (p x d : ℕ) → 0 < p → (x * 10 + d) * p ≡ x * (10 * p) + d * p
decimal_split p x d h = grind arith

grow_lem : (x d p : ℕ) → d ≤ 9 → (x + 1) * (10 * p) ≤ 2 ^ 64 → (x * 10 + d + 1) * p ≤ 2 ^ 64
grow_lem x d p hd h = grind arith

fits_lem : (x d p : ℕ) → 0 < p → d ≤ 9 → (x + 1) * (10 * p) ≤ 2 ^ 64 → x * 10 + d < 2 ^ 64
fits_lem x d p hp hd h = grind arith

-- While the number has room for the digits to come, the loop does not wrap around.
pub read_digits_lem :
    (v : ℕ) (s : Text)
    → (v + 1) * 10 ^ length s ≤ 2 ^ 64
    → AreDigits s
    → read_digits v s ≡ some (decimal v s)
unfolding read_digits decimal
read_digits_lem v [] room h = refl
read_digits_lem v (c ∷ s) room h =
    let p = 10 ^ length s in
    let pos : 0 < p = one-le-pow (length s) 10 (omega arith) in
    let room' : (v + 1) * (10 * p) ≤ 2 ^ 64 = ground (arith, pow-suc 10 (length s)) in
    let fits = fits_lem v (c - 48) p pos (omega (arith, h.0)) room' in
    let same : (v * 10 + (c - 48)) % 2 ^ 64 ≡ v * 10 + (c - 48) = omega arith in
    let rest =
      read_digits_lem (v * 10 + (c - 48)) s (grow_lem v (c - 48) p (omega (arith, h.0)) room')
        h.1 in
    rw same (ground (arith, rest, h.0))

-- and it stops at a byte that is no digit
read_digits-AreDigits : (v w : ℕ) (s : Text) → read_digits v s ≡ some w → AreDigits s
unfolding read_digits
read_digits-AreDigits v w [] h = tt
read_digits-AreDigits v w (c ∷ s) h =
    let next = (v * 10 + (c - 48)) % 2 ^ 64 in
    let rest : read_digits next s ≡ some w = ground arith in
    (ground arith, read_digits-AreDigits next w s rest)

-- The text is read exactly if it is not empty, not longer than asked for, and all digits; the value
-- is the number that the digits denote. Up to 19 digits fit 64 bits.
pub parse_digits_lem :
    (s : Text) (max_digits v : ℕ)
    → max_digits ≤ 19
    → (parse_digits s max_digits ≡ some v)
      ↔ ((0 < length s) × (length s ≤ max_digits) × AreDigits s × (v ≡ decimal 0 s))
unfolding parse_digits
parse_digits_lem s max_digits v hm = (
  (λ h.
      let read : read_digits 0 s ≡ some v = ground arith in
      let short : length s ≤ max_digits = ground arith in
      let digits = read_digits-AreDigits 0 v s read in
      let value = read_digits_lem 0 s (room short) digits in
      (ground arith, short, digits, some-injective _ _ (sym read ∙ value))),
  (λ (nonempty, short, digits, e).
      let value = read_digits_lem 0 s (room short) digits in ground (arith, value)),
)
  where
    room : length s ≤ max_digits → 1 * 10 ^ length s ≤ 2 ^ 64
    room short =
        omega (arith, pow-le-pow_right {n = 10} (omega arith) {i = length s} {j = 19} (omega arith))

-- A number written with `n` digits begins with the digit of weight 10^(n-1).
write_digits-front :
    (n w : ℕ) (out : Text)
    → write_digits (suc n) w out ≡ (48 + w / 10 ^ n % 10) ∷ write_digits n w out
unfolding write_digits
write_digits-front zero w out = ap (λ (t : ℕ). (48 + t % 10) ∷ out) (omega arith)
write_digits-front (suc n) w out =
    let weight : w / 10 / 10 ^ n ≡ w / 10 ^ suc n =
      div-div-eq-div-mul w 10 (10 ^ n) ∙ ap (λ (t : ℕ). w / t) (sym (pow-succ' 10 n)) in
    write_digits-front n (w / 10) ((48 + w % 10) ∷ out)
    ∙ ap (λ (t : ℕ). (48 + t % 10) ∷ write_digits n (w / 10) ((48 + w % 10) ∷ out)) weight

-- The digits of a text are what is left of its number below the weight of the text.
decimal-weight : (v : ℕ) (s : Text) → AreDigits s → decimal v s / 10 ^ length s ≡ v
unfolding decimal
decimal-weight v [] h = omega arith
decimal-weight v (c ∷ s) h =
    let rest = decimal-weight (v * 10 + (c - 48)) s h.1 in
    let d = decimal (v * 10 + (c - 48)) s in
    let weight : d / 10 ^ length s / 10 ≡ d / (10 ^ length s * 10) =
      div-div-eq-div-mul d (10 ^ length s) 10 in
    let same : 10 ^ length s * 10 ≡ 10 ^ suc (length s) = omega (arith, pow-suc 10 (length s)) in
    ap (λ (t : ℕ). d / t) (sym same) ∙ sym weight ∙ omega (arith, rest, h.0)

pub write_digits-decimal :
    (v : ℕ) (s : Text) → AreDigits s → write_digits (length s) (decimal v s) [] ≡ s
unfolding decimal write_digits
write_digits-decimal v [] h = refl
write_digits-decimal v (c ∷ s) h =
    let w = decimal (v * 10 + (c - 48)) s in
    let top = decimal-weight (v * 10 + (c - 48)) s h.1 in
    let digit : 48 + w / 10 ^ length s % 10 ≡ c = omega (arith, top, h.0) in
    write_digits-front (length s) w []
    ∙ ap (λ (t : ℕ). t ∷ write_digits (length s) w []) digit
    ∙ ap (λ (t : Text). c ∷ t) (write_digits-decimal (v * 10 + (c - 48)) s h.1)

-- A text that is read as an IMSI is printed back, with as many digits as it had, byte for byte:
-- leading zeros are kept.
pub format_imsi-parse_imsi :
    (s : Text) (v : ℕ) → parse_imsi s ≡ some v → format_imsi v (length s) ≡ s
unfolding parse_imsi format_imsi
format_imsi-parse_imsi s v h =
    let (nonempty, short, digits, e) = (parse_digits_lem s imsi_digits v (omega arith)).0 h in
    rw e (write_digits-decimal 0 s digits)

pub write_digits-AreDigits :
    (n v : ℕ) (out : Text)
    → AreDigits out
    → AreDigits (write_digits n v out) × (length (write_digits n v out) ≡ n + length out)
unfolding write_digits
write_digits-AreDigits zero v out h = (h, omega arith)
write_digits-AreDigits (suc n) v out h =
    let rest =
      write_digits-AreDigits n (v / 10) ((48 + v % 10) ∷ out) ((omega arith, omega arith), h) in
    (rest.0, omega (arith, rest.1))

pub decimal-write_digits :
    (n v : ℕ) (out : Text) → v < 10 ^ n → decimal 0 (write_digits n v out) ≡ decimal v out
unfolding decimal write_digits
decimal-write_digits zero v out h =
    let none_left : v ≡ 0 = omega arith in ap (λ (t : ℕ). decimal t out) (sym none_left)
decimal-write_digits (suc n) v out h =
    let rest =
      decimal-write_digits n (v / 10) ((48 + v % 10) ∷ out) (omega (arith, pow-suc 10 n)) in
    let value : v / 10 * 10 + (48 + v % 10 - 48) ≡ v = omega arith in
    rest ∙ ap (λ (t : ℕ). decimal t out) value

-- Every number of at most 15 digits is an IMSI that is printed and read back, and the printed form
-- has 15 characters.
pub parse_imsi-format_imsi :
    (v : ℕ)
    → v < 10 ^ 15
    → (parse_imsi (format_imsi v imsi_digits) ≡ some v) × (length (format_imsi v imsi_digits) ≡ 15)
unfolding parse_imsi format_imsi decimal
parse_imsi-format_imsi v h =
    let (digits, size) = write_digits-AreDigits imsi_digits v [] tt in
    (
      (parse_digits_lem (write_digits imsi_digits v []) imsi_digits v (omega arith)).1 (
        omega (arith, size),
        omega (arith, size),
        digits,
        sym (decimal-write_digits imsi_digits v [] h),
      ),
      omega (arith, size),
    )
