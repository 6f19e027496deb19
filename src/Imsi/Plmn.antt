-- ===== src/Imsi/Plmn.antt =====
-- The spellings of a PLMN.
use real_time_policy_authori.Common.{
  ℕ, suc, ◌+◌, ◌≤◌, ◌<◌, ◌≡◌, ◌≢◌, ◌⊎◌, refl, sym, ap, subst, ◌∙◌, true, not, ◌||◌, none, some, [],
  ◌∷◌, ◌++◌, arith, length, take, drop, ltb, ◌==◌, if◌then◌else◌,
}
use real_time_policy_authori.FlatSet.{◌>>=◌}
use real_time_policy_authori.Rules.{Text}
use real_time_policy_authori.Imsi.{parse_plmn, find_separator, is_separator, make_plmn, plmn_of}
use real_time_policy_authori.Imsi.Digits.{AreDigits, decimal, parse_digits_lem}

find_separator-none : (s : Text) → AreDigits s → find_separator s ≡ none
unfolding find_separator
find_separator-none [] h = refl
find_separator-none (c ∷ s) h = ground (arith, find_separator-none s h.1, h.0)

find_separator-some :
    (s t : Text) (c : ℕ)
    → AreDigits s
    → is_separator c ≡ true
    → find_separator (s ++ c ∷ t) ≡ some (length s)
unfolding find_separator
find_separator-some [] t c h sep = ground arith
find_separator-some (x ∷ s) t c h sep =
    let rest = find_separator-some s t c h.1 sep in rw rest (ground (arith, h.0))

take_front : (s t : Text) → take (length s) (s ++ t) ≡ s
take_front [] t = refl
take_front (x ∷ s) t = ap (λ (u : Text). x ∷ u) (take_front s t)

drop_front : (s t : Text) → drop (length s) (s ++ t) ≡ t
drop_front [] t = refl
drop_front (x ∷ s) t = drop_front s t

drop_past : (s t : Text) (c : ℕ) → drop (length s + 1) (s ++ c ∷ t) ≡ t
drop_past [] t c = refl
drop_past (x ∷ s) t c =
    let next : suc (length s) + 1 ≡ suc (length s + 1) = omega arith in
    subst (λ (k : ℕ). drop k ((x ∷ s) ++ c ∷ t) ≡ t) (sym next) (drop_past s t c)

AreDigits-++ : (s t : Text) → AreDigits s → AreDigits t → AreDigits (s ++ t)
AreDigits-++ [] t h k = k
AreDigits-++ (c ∷ s) t h k = (h.0, AreDigits-++ s t h.1 k)

length-++ : (s t : Text) → length (s ++ t) ≡ length s + length t
length-++ [] t = omega arith
length-++ (x ∷ s) t = omega (arith, length-++ s t)

module _ (mcc mnc : Text) (c : ℕ) (is_mcc : AreDigits mcc) (sep : is_separator c ≡ true) where
  parts_lem :
      AreDigits mnc
      → length mcc ≡ 3
      → 2 ≤ length mnc
      → length mnc ≤ 3
      → plmn_of mcc mnc ≡ some (make_plmn (decimal 0 mcc) (decimal 0 mnc))
  parts_lem is_mnc three at_least at_most =
      let first =
        (parse_digits_lem mcc 3 _ (omega arith)).1 (omega arith, omega arith, is_mcc, refl) in
      let second =
        (parse_digits_lem mnc 3 _ (omega arith)).1 (omega arith, omega arith, is_mnc, refl) in
      rw (first, ◌>>=◌, second, ◌>>=◌) refl

  separated_lem : parse_plmn (mcc ++ c ∷ mnc) ≡ (
      if not (length mcc == 3) || ltb (length mnc) 2 || ltb 3 (length mnc)
      then none
      else plmn_of mcc mnc)
  unfolding parse_plmn
  separated_lem =
      rw
        (
          parse_plmn,
          find_separator-some mcc mnc c is_mcc sep,
          take_front mcc (c ∷ mnc),
          drop_past mcc mnc c,
        )
        refl

  -- A PLMN is an MCC of three digits and an MNC of two or three. Written with a separator or without,
  -- it is the same network, MCC times 1000 plus MNC.
  pub parse_plmn_spellings :
      AreDigits mnc
      → length mcc ≡ 3
      → 2 ≤ length mnc
      → length mnc ≤ 3
      → (parse_plmn (mcc ++ c ∷ mnc) ≡ some (make_plmn (decimal 0 mcc) (decimal 0 mnc)))
        × (parse_plmn (mcc ++ mnc) ≡ some (make_plmn (decimal 0 mcc) (decimal 0 mnc)))
  unfolding parse_plmn
  parse_plmn_spellings is_mnc three at_least at_most =
      let whole = parts_lem is_mnc three at_least at_most in
      let bare : find_separator (mcc ++ mnc) ≡ none =
        find_separator-none (mcc ++ mnc) (AreDigits-++ mcc mnc is_mcc is_mnc) in
      let front : take 3 (mcc ++ mnc) ≡ mcc = rw (← three) (take_front mcc mnc) in
      let back : drop 3 (mcc ++ mnc) ≡ mnc = rw (← three) (drop_front mcc mnc) in
      (
        separated_lem ∙ ground (arith, whole),
        rw (parse_plmn, bare, front, back) (ground (arith, whole, length-++ mcc mnc)),
      )

  -- With a separator, an MCC that has not three digits is refused, and so is an MNC that has not two
  -- or three characters, whatever they are.
  pub parse_plmn_refuses :
      (length mcc ≢ 3) ⊎ (length mnc < 2) ⊎ (3 < length mnc) → parse_plmn (mcc ++ c ∷ mnc) ≡ none
  parse_plmn_refuses wrong = separated_lem ∙ ground arith
