-- ===== src/Engine/Gbr.antt =====
-- `is_gbr_5qi`: the two 64-bit maps against the list that they are built from.
use real_time_policy_authori.Common.{
  all_below, all_below_sound, ℕ, ◌-◌, ◌/◌, ◌^◌, ◌<◌, ◌≡◌, refl, Bool, true, false, not, ◌&&◌, List,
  [], ◌∷◌, ◌==◌, ltb, leb, if◌then◌else◌, bit_and, memb, arith,
}
use real_time_policy_authori.Common.Bits.{set_if}

abbrev pub gbr_5qis : List ℕ
gbr_5qis = 1 ∷ 2 ∷ 3 ∷ 4 ∷ 65 ∷ 66 ∷ 67 ∷ 71 ∷ 72 ∷ 73 ∷ 74 ∷ 75 ∷ 76 ∷ []

unfoldable pub gbr_lo_bits : List ℕ → ℕ → ℕ
unfolding set_if
gbr_lo_bits [] m = m
gbr_lo_bits (q ∷ qs) m = gbr_lo_bits qs (set_if (ltb q 64) q m)

unfoldable pub gbr_hi_bits : List ℕ → ℕ → ℕ
unfolding set_if
gbr_hi_bits [] m = m
gbr_hi_bits (q ∷ qs) m = gbr_hi_bits qs (set_if (leb 64 q && ltb q 128) (q - 64) m)

unfoldable pub is_gbr_5qi : ℕ → Bool
unfolding gbr_lo_bits gbr_hi_bits
is_gbr_5qi q =
    if ltb q 64
    then not (bit_and (gbr_lo_bits gbr_5qis 0 / 2 ^ q) 1 == 0)
    else (if ltb q 128 then not (bit_and (gbr_hi_bits gbr_5qis 0 / 2 ^ (q - 64)) 1 == 0) else false)

abbrev same : Bool → Bool → Bool
same true b = b
same false b = not b

same→eq : (a b : Bool) → same a b ≡ true → a ≡ b
same→eq true b h = ground arith
same→eq false b h = ground arith

gbr_table : all_below 256 (λ q. same (is_gbr_5qi q) (memb q gbr_5qis)) ≡ true
unfolding is_gbr_5qi
gbr_table = refl

-- For every 8-bit value the two bit maps say exactly whether it is in the list of GBR classes.
pub is_gbr_5qi-memb : (q : ℕ) → q < 256 → is_gbr_5qi q ≡ memb q gbr_5qis
is_gbr_5qi-memb q h =
    same→eq _ _ (all_below_sound 256 (λ q. same (is_gbr_5qi q) (memb q gbr_5qis)) q gbr_table h)
