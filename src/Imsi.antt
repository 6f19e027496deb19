-- ===== src/Imsi.antt =====
-- include/policy/imsi.hpp: IMSIs, IMEIs and PLMNs as text and as numbers. A text is the list of its
-- bytes; a `std::string_view` that is cut is the part of that list.
pub mod Digits
pub mod Plmn
pub mod Printed
pub mod Luhn
mod Tests
use real_time_policy_authori.Common.{
  ℕ, zero, suc, ◌+◌, ◌-◌, ◌*◌, ◌/◌, ◌%◌, ◌^◌, Bool, true, false, not, ◌&&◌, ◌||◌, Option, none,
  some, List, [], ◌∷◌, length, take, drop, ◌==◌, ltb, if◌then◌else◌, ◌++◌,
}
use real_time_policy_authori.FlatSet.{◌>>=◌}
use real_time_policy_authori.Rules.{Text}

abbrev pub imsi_digits : ℕ
imsi_digits = 15

abbrev pub imei_digits : ℕ
imei_digits = 15

-- the loop of `parse_digits`
unfoldable pub read_digits : ℕ → Text → Option ℕ
read_digits v [] = some v
read_digits v (c ∷ s) =
    let rest = read_digits ((v * 10 + (c - 48)) % 2 ^ 64) s in
    if ltb c 48 || ltb 57 c then none else rest

unfoldable pub parse_digits : Text → ℕ → Option ℕ
parse_digits s max_digits =
    if (length s == 0) || ltb max_digits (length s) then none else read_digits 0 s

unfoldable pub parse_imsi : Text → Option ℕ
parse_imsi s = parse_digits s imsi_digits

unfoldable pub parse_imei : Text → Option ℕ
parse_imei s = if length s == 0 then some 0 else parse_digits s imei_digits

-- the loop of `format_imsi`, which fills the text from its end
unfoldable pub write_digits : ℕ → ℕ → Text → Text
write_digits zero imsi out = out
write_digits (suc i) imsi out = write_digits i (imsi / 10) ((48 + imsi % 10) ∷ out)

unfoldable pub format_imsi : ℕ → ℕ → Text
format_imsi imsi digits = write_digits digits imsi []

abbrev pub make_plmn : ℕ → ℕ → ℕ
make_plmn mcc mnc = (mcc * 1000 % 2 ^ 32 + mnc) % 2 ^ 32

abbrev pub plmn_mcc : ℕ → ℕ
plmn_mcc plmn = plmn / 1000

abbrev pub plmn_mnc : ℕ → ℕ
plmn_mnc plmn = plmn % 1000

-- one of `-`, `/` and the blank
abbrev pub is_separator : ℕ → Bool
is_separator c = c == 45 || c == 47 || c == 32

-- `find_first_of("-/ ")`
unfoldable pub find_separator : Text → Option ℕ
find_separator [] = none
find_separator (c ∷ s) =
    let rest = find_separator s in if is_separator c then some 0 else (rest >>= λ i. some (i + 1))

-- both parts, read and put together
abbrev pub plmn_of : Text → Text → Option ℕ
plmn_of mcc_text mnc_text =
    parse_digits mcc_text 3 >>= λ mcc. parse_digits mnc_text 3 >>= λ mnc. some (make_plmn mcc mnc)

unfoldable pub parse_plmn : Text → Option ℕ
parse_plmn s = elim (find_separator s) [
  | none ↦
      if not (length s == 5) && not (length s == 6) then none else plmn_of (take 3 s) (drop 3 s)
  | some sep ↦
      let mcc_text = take sep s in
      let mnc_text = drop (sep + 1) s in
      if not (length mcc_text == 3) || ltb (length mnc_text) 2 || ltb 3 (length mnc_text)
      then none
      else plmn_of mcc_text mnc_text
]

-- how many digits `std::to_string` writes; a 32-bit number has at most 10
unfoldable pub width : ℕ → ℕ → ℕ
width zero n = 1
width (suc fuel) n = let rest = width fuel (n / 10) in if ltb n 10 then 1 else suc rest

unfoldable pub to_string : ℕ → Text
to_string n = write_digits (width 10 n) n []

unfoldable pub format_plmn : ℕ → Text
format_plmn plmn = to_string (plmn_mcc plmn) ++ 45 ∷ to_string (plmn_mnc plmn)

-- a digit that is doubled
abbrev pub doubled : ℕ → ℕ
doubled d = if ltb 9 (d * 2) then d * 2 - 9 else d * 2

-- the loop of `imei_luhn_valid`; a 64-bit number has at most 20 digits
unfoldable pub luhn_sum : ℕ → ℕ → Bool → ℕ → ℕ
luhn_sum zero imei dbl sum = sum
luhn_sum (suc fuel) imei dbl sum =
    let rest =
      luhn_sum fuel (imei / 10) (not dbl)
        (sum + (if dbl then doubled (imei % 10) else imei % 10)) in
    if imei == 0 then sum else rest

unfoldable pub imei_luhn_valid : ℕ → Bool
imei_luhn_valid imei = luhn_sum 20 imei false 0 % 10 == 0
