-- ===== src/Hdr/Order.antt =====
-- The order of values is that of their places.
use native.Mathlib.Nat.{pow-le-pow_right}
use real_time_policy_authori.Common.{
  ℕ, ◌+◌, ◌*◌, ◌/◌, ◌^◌, ◌<◌, ◌≤◌, ◌≡◌, ap, arith, inl, inr, dec_lt,
}
use real_time_policy_authori.Hdr.{Layout, sub_bucket_index, counts_index_for}
use real_time_policy_authori.Hdr.Buckets.{
  IsLayout, bucket, bucket_lem, sub, counts_index_bounds, counts_index_lem,
}

module _ {l : Layout} (is : IsLayout l) where
  pub pow_lt : (a b : ℕ) → 2 ^ a < 2 ^ b → a < b
  pow_lt a b h = elim (dec_lt a b) [
    | yes lt ↦ lt
    | no ge ↦
        let wide = pow-le-pow_right {n = 2} (omega arith) {i = b} {j = a} (omega arith) in
        absurd (omega arith)
  ]

  -- A larger value is not counted at a smaller index.
  pub counts_index_mono :
      (v w : ℕ) → v ≤ w → w < 2 ^ 63 → counts_index_for l v ≤ counts_index_for l w
  unfolding bucket sub sub_bucket_index
  counts_index_mono v w le fits =
      let fits' : v < 2 ^ 63 = omega arith in
      let bv = bucket is v fits' in
      let bw = bucket is w fits in
      let hw = counts_index_bounds is w fits in
      let hv = counts_index_bounds is v fits' in
      let (upper, x) = bucket_lem is w fits in
      let (y, lower) = bucket_lem is v fits' in
      let p = 2 ^ l.sub_bucket_half_count_magnitude in
      elim (dec_lt bv bw) [
        | yes less ↦ elim hw.1 [
          | inl z ↦ absurd (omega arith)
          | inr above ↦ omega (arith, above, hv.0, rows bv bw p less)
        ]
        | no ge ↦ elim (dec_lt bw bv) [
          | no same ↦
              let eq : bv ≡ bw = omega arith in
              let order = div_le v w (2 ^ (bw + l.unit_magnitude)) le in
              let column : sub is v fits' ≡ v / 2 ^ (bw + l.unit_magnitude) =
                ap (λ (t : ℕ). v / 2 ^ (t + l.unit_magnitude)) eq in
              let row : bv * p ≡ bw * p = ap (λ (t : ℕ). t * p) eq in
              omega
                (arith, counts_index_lem is v fits', counts_index_lem is w fits, column, row, order)
          | yes more ↦ elim lower [
            | inl z ↦ absurd (omega arith)
            | inr ge_v ↦
                let wide =
                  pow-le-pow_right {n = 2} (omega arith)
                    {i = bw + l.unit_magnitude + l.sub_bucket_half_count_magnitude + 1}
                    {j = bv + l.unit_magnitude + l.sub_bucket_half_count_magnitude} (omega arith) in
                absurd (omega (arith, wide, ge_v, upper))
          ]
        ]
      ]
    where
      rows : (a b p : ℕ) → a < b → a * p + p ≤ b * p
      rows a b p lt = grind arith

      div_le : (v w p : ℕ) → v ≤ w → v / p ≤ w / p
      div_le v w p le = grind arith
