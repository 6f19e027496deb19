-- ===== src/Imsi/Tests.antt =====
-- Runs of the parsers, and their theorems at an IMSI, a PLMN and an IMEI.
use real_time_policy_authori.Common.{
  ◌<◌, ◌≤◌, ◌≡◌, ◌↔◌, refl, ℕ, ◌%◌, true, false, none, some, List, [], ◌∷◌, ◌++◌, length, arith,
  ◌==◌,
}
use real_time_policy_authori.Rules.{Text}
use real_time_policy_authori.Imsi.{
  parse_digits, read_digits, parse_imsi, format_imsi, imsi_digits, parse_plmn, make_plmn,
  imei_luhn_valid, luhn_sum, format_plmn,
}
use real_time_policy_authori.Imsi.Digits.{
  AreDigits, decimal, parse_digits_lem, parse_imsi-format_imsi,
}
use real_time_policy_authori.Imsi.Plmn.{parse_plmn_spellings}
use real_time_policy_authori.Imsi.Printed.{parse_plmn-format_plmn, parse_plmn-format_plmn_refuses}
use real_time_policy_authori.Imsi.Luhn.{
  from_digits, AreDecimal, checksum, check_digit, imei_luhn_valid_lem,
}

parse_imsi-format_imsi_example :
    (parse_imsi (format_imsi 208010000000007 imsi_digits) ≡ some 208010000000007)
    × (length (format_imsi 208010000000007 imsi_digits) ≡ 15)
parse_imsi-format_imsi_example = parse_imsi-format_imsi 208010000000007 (omega arith)

-- "00208"
abbrev padded : Text
padded = 48 ∷ 48 ∷ 50 ∷ 48 ∷ 56 ∷ []

padded_parsed : parse_imsi padded ≡ some 208
unfolding parse_imsi parse_digits read_digits
padded_parsed = refl

parse_digits_example :
    (parse_digits padded 15 ≡ some 208)
    ↔ ((0 < length padded) × (length padded ≤ 15) × AreDigits padded × (208 ≡ decimal 0 padded))
parse_digits_example = parse_digits_lem padded 15 208 (omega arith)

-- "208"
abbrev france : Text
france = 50 ∷ 48 ∷ 56 ∷ []

france-AreDigits : AreDigits france
france-AreDigits =
    ((omega arith, omega arith), ((omega arith, omega arith), ((omega arith, omega arith), tt)))

-- "01"
abbrev orange : Text
orange = 48 ∷ 49 ∷ []

orange-AreDigits : AreDigits orange
orange-AreDigits = ((omega arith, omega arith), ((omega arith, omega arith), tt))

parse_plmn_spellings_example :
    (parse_plmn (france ++ 45 ∷ orange) ≡ some (make_plmn (decimal 0 france) (decimal 0 orange)))
    × (parse_plmn (france ++ orange) ≡ some (make_plmn (decimal 0 france) (decimal 0 orange)))
parse_plmn_spellings_example =
    parse_plmn_spellings france orange 45 france-AreDigits refl orange-AreDigits refl (omega arith)
      (omega arith)

-- 49015420323751, the last digit first
abbrev body : List ℕ
body = 1 ∷ 5 ∷ 7 ∷ 3 ∷ 2 ∷ 3 ∷ 0 ∷ 2 ∷ 4 ∷ 5 ∷ 1 ∷ 0 ∷ 9 ∷ 4 ∷ []

body-AreDecimal : AreDecimal (8 ∷ body)
body-AreDecimal = omega arith

imei_luhn_valid_example :
    (imei_luhn_valid (from_digits (8 ∷ body)) ≡ (checksum false (8 ∷ body) % 10 == 0))
    × (imei_luhn_valid (from_digits (8 ∷ body)) ≡ (8 == check_digit body))
    × (check_digit body < 10)
imei_luhn_valid_example = imei_luhn_valid_lem 8 body body-AreDecimal (omega arith)

valid_imei : imei_luhn_valid 490154203237518 ≡ true
unfolding imei_luhn_valid luhn_sum
valid_imei = refl

parse_plmn-format_plmn_example : parse_plmn (format_plmn 310260) ≡ some 310260
parse_plmn-format_plmn_example =
    parse_plmn-format_plmn 310260 (omega arith) (omega arith) (omega arith)

-- 208-01
parse_plmn-format_plmn_refuses_example : parse_plmn (format_plmn 208001) ≡ none
parse_plmn-format_plmn_refuses_example =
    parse_plmn-format_plmn_refuses 208001 (omega arith) (omega arith) (omega arith)
