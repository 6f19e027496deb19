-- ===== src/Imsi/Printed.antt =====
-- `format_plmn` against `parse_plmn`.
use real_time_policy_authori.Common.{
  ℕ, ◌/◌, ◌%◌, ◌^◌, ◌<◌, ◌≤◌, ◌≡◌, refl, ap, ◌∙◌, inl, inr, none, some, [], length, arith, dec_lt,
}
use real_time_policy_authori.Imsi.{width, to_string, format_plmn, parse_plmn, make_plmn}
use real_time_policy_authori.Imsi.Digits.{
  AreDigits, decimal, write_digits-AreDigits, decimal-write_digits,
}
use real_time_policy_authori.Imsi.Plmn.{parse_plmn_spellings, parse_plmn_refuses}

width_one : (n : ℕ) → n < 10 → width 10 n ≡ 1
unfolding width
width_one n h = ground arith

width_two : (n : ℕ) → 10 ≤ n → n < 100 → width 10 n ≡ 2
unfolding width
width_two n h k = ground arith

width_three : (n : ℕ) → 100 ≤ n → n < 1000 → width 10 n ≡ 3
unfolding width
width_three n h k = ground arith

-- what is printed, and what it denotes
Printed : ℕ → ℕ → Type 0
Printed k n = AreDigits (to_string n) × (length (to_string n) ≡ k) × (decimal 0 (to_string n) ≡ n)

printed_lem : (k n : ℕ) → width 10 n ≡ k → n < 10 ^ k → Printed k n
unfolding Printed to_string decimal
printed_lem k n h lt =
    let (digits, size) = write_digits-AreDigits k n [] tt in
    rw h (digits, omega (arith, size), decimal-write_digits k n [] lt)

-- A network of a three-digit MCC without leading zeros and an MNC of at least 10 is printed in a form
-- that is read back.
pub parse_plmn-format_plmn :
    (plmn : ℕ)
    → 100 ≤ plmn / 1000
    → plmn / 1000 < 1000
    → 10 ≤ plmn % 1000
    → parse_plmn (format_plmn plmn) ≡ some plmn
unfolding format_plmn Printed
parse_plmn-format_plmn plmn lo hi two =
    let mcc = plmn / 1000 in
    let mnc = plmn % 1000 in
    let (md, ml, mv) = printed_lem 3 mcc (width_three mcc lo hi) (omega arith) in
    let whole : make_plmn mcc mnc ≡ plmn = omega arith in
    elim (dec_lt mnc 100) [
      | yes small ↦
          let (nd, nl, nv) = printed_lem 2 mnc (width_two mnc two small) (omega arith) in
          let parts : make_plmn (decimal 0 (to_string mcc)) (decimal 0 (to_string mnc)) ≡ plmn =
            rw (mv, nv) whole in
          (parse_plmn_spellings (to_string mcc) (to_string mnc) 45 md refl nd ml (omega (arith, nl))
            (omega (arith, nl))).0
          ∙ ap some parts
      | no large ↦
          let (nd, nl, nv) =
            printed_lem 3 mnc (width_three mnc (omega arith) (omega arith)) (omega arith) in
          let parts : make_plmn (decimal 0 (to_string mcc)) (decimal 0 (to_string mnc)) ≡ plmn =
            rw (mv, nv) whole in
          (parse_plmn_spellings (to_string mcc) (to_string mnc) 45 md refl nd ml (omega (arith, nl))
            (omega (arith, nl))).0
          ∙ ap some parts
    ]

-- A network of a three-digit MCC whose MNC is below 10, such as 208-01, is printed with an MNC of one digit, and that form
-- is refused by the parser.
pub parse_plmn-format_plmn_refuses :
    (plmn : ℕ)
    → 100 ≤ plmn / 1000
    → plmn / 1000 < 1000
    → plmn % 1000 < 10
    → parse_plmn (format_plmn plmn) ≡ none
unfolding format_plmn Printed
parse_plmn-format_plmn_refuses plmn lo hi one =
    let mcc = plmn / 1000 in
    let mnc = plmn % 1000 in
    let (md, ml, mv) = printed_lem 3 mcc (width_three mcc lo hi) (omega arith) in
    let (nd, nl, nv) = printed_lem 1 mnc (width_one mnc one) (omega arith) in
    parse_plmn_refuses (to_string mcc) (to_string mnc) 45 md refl (inr (inl (omega (arith, nl))))
