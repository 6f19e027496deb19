-- ===== src/Hdr/Rank.antt =====
-- Values that are counted at one index, and the order of values and indices.
use native.Mathlib.Nat.{pow-le-pow_right}
use real_time_policy_authori.Common.{
  ℕ, ◌+◌, ◌*◌, ◌/◌, ◌^◌, ◌<◌, ◌≤◌, ◌≡◌, ◌⊎◌, inl, inr, sym, ap, ◌∙◌, arith, dec_lt, ℕ_discrete,
}
use real_time_policy_authori.Hdr.{
  Layout, counts_index_for, value_from_index, lowest_equivalent_value, sub_bucket_index,
  next_non_equivalent_value, highest_equivalent_value,
}
use real_time_policy_authori.Hdr.Buckets.{
  IsLayout, bucket, bucket_lem, sub, sub_ge, counts_index_bounds, counts_index_lem,
  equivalent_range, value_from_index-counts_index, lowest_lem, size_lem, pow_pos, pow_add,
}
use real_time_policy_authori.Hdr.Order.{counts_index_mono}

module _ {l : Layout} (is : IsLayout l) where
  -- Values at one index are in one bucket.
  same_bucket :
      (v w : ℕ) (fv : v < 2 ^ 63) (fw : w < 2 ^ 63)
      → counts_index_for l v ≡ counts_index_for l w
      → bucket is v fv ≡ bucket is w fw
  same_bucket v w fv fw e =
      let (hv, lv) = counts_index_bounds is v fv in
      let (hw, lw) = counts_index_bounds is w fw in
      rows_lem (bucket is v fv) (bucket is w fw) (2 ^ l.sub_bucket_half_count_magnitude)
        (counts_index_for l v) (counts_index_for l w) e hv lv hw lw
    where
      rows_lem :
          (a b p x y : ℕ)
          → x ≡ y
          → x < a * p + p * 2
          → ((a ≡ 0) ⊎ (a * p + p ≤ x))
          → y < b * p + p * 2
          → ((b ≡ 0) ⊎ (b * p + p ≤ y))
          → a ≡ b
      rows_lem a b p x y e ha la hb lb = elim (dec_lt a b) [
        | yes lt ↦ elim lb [
          | inl z ↦ absurd (omega arith)
          | inr ge ↦ absurd (omega (arith, step a b p lt))
        ]
        | no ge ↦ elim (dec_lt b a) [
          | yes lt ↦ elim la [
            | inl z ↦ absurd (omega arith)
            | inr ge ↦ absurd (omega (arith, step b a p lt))
          ]
          | no ge' ↦ omega arith
        ]
      ]
        where
          step : (a b p : ℕ) → a < b → a * p + p ≤ b * p
          step a b p lt = grind arith

  -- Values at one index are counted as one value.
  pub same_range :
      (v w : ℕ)
      → v < 2 ^ 63
      → w < 2 ^ 63
      → counts_index_for l v ≡ counts_index_for l w
      → (lowest_equivalent_value l v ≡ lowest_equivalent_value l w)
        × (highest_equivalent_value l v ≡ highest_equivalent_value l w)
  unfolding highest_equivalent_value next_non_equivalent_value
  same_range v w fv fw e =
      let row = same_bucket v w fv fw e in
      let low =
        sym (value_from_index-counts_index is v fv)
        ∙ ap (value_from_index l) e
        ∙ value_from_index-counts_index is w fw in
      let size =
        size_lem is v fv
        ∙ ap (λ (b : ℕ). 2 ^ (b + l.unit_magnitude)) row
        ∙ sym (size_lem is w fw) in
      (low, omega (arith, low, size))

  -- The lowest value of a range is counted where the range is.
  pub counts_index-lowest :
      (v : ℕ) → v < 2 ^ 63 → counts_index_for l (lowest_equivalent_value l v) ≡ counts_index_for l v
  unfolding sub sub_bucket_index
  counts_index-lowest v fv =
      let m = lowest_equivalent_value l v in
      let around = equivalent_range is v fv in
      let fm : m < 2 ^ 63 = omega (arith, around.0) in
      let b = bucket is v fv in
      let c = bucket is m fm in
      let h = l.sub_bucket_half_count_magnitude in
      let u = l.unit_magnitude in
      let (upper, lower) = bucket_lem is m fm in
      let (upper', lower') = bucket_lem is v fv in
      let not_more : ¬ (b < c) = λ lt. elim lower [
        | inl z ↦ absurd (omega arith)
        | inr ge ↦
            let wide =
              pow-le-pow_right {n = 2} (omega arith) {i = b + u + h + 1} {j = c + u + h}
                (omega arith) in
            absurd (omega (arith, around.0))
      ] in
      let not_less : ¬ (c < b) = λ lt.
        let full = sub_ge is v fv (λ z. absurd (omega arith)) in
        let split = pow_add h (b + u) in
        let tall : 2 ^ (h + (b + u)) ≤ m =
          omega
            (arith, split, lowest_lem is v fv, scaled (2 ^ h) (sub is v fv) (2 ^ (b + u)) full) in
        let wide =
          pow-le-pow_right {n = 2} (omega arith) {i = c + u + h + 1} {j = h + (b + u)}
            (omega arith) in
        absurd (omega (arith, tall, wide, upper)) in
      let row : c ≡ b = elim (dec_lt b c) [
        | yes lt ↦ absurd (not_more lt)
        | no ge ↦ elim (dec_lt c b) [ yes lt ↦ absurd (not_less lt) | no ge' ↦ omega arith ]
      ] in
      let column : sub is m fm ≡ sub is v fv =
        ap (λ (t : ℕ). m / 2 ^ (t + u)) row
        ∙ ap (λ (t : ℕ). t / 2 ^ (b + u)) (lowest_lem is v fv)
        ∙ undone (sub is v fv) (2 ^ (b + u)) (pow_pos (b + u)) in
      counts_index_lem is m fm
      ∙ omega (arith, ap (λ (t : ℕ). t * 2 ^ h) row, column, counts_index_lem is v fv)
    where
      scaled : (a b p : ℕ) → a ≤ b → a * p ≤ b * p
      scaled a b p le = grind arith

      undone : (a p : ℕ) → 0 < p → a * p / p ≡ a
      undone a p h = grind arith

  -- The place of a value stands for the range of the value.
  pub highest-value_from_index :
      (w : ℕ)
      → w < 2 ^ 63
      → highest_equivalent_value l (value_from_index l (counts_index_for l w))
        ≡ highest_equivalent_value l w
  highest-value_from_index w fw =
      let around = equivalent_range is w fw in
      ap (highest_equivalent_value l) (value_from_index-counts_index is w fw)
      ∙ (same_range (lowest_equivalent_value l w) w (omega (arith, around.0)) fw
          (counts_index-lowest w fw)).1

  -- A value at a place up to that of `w` is in the range of `w` or below it.
  pub le-highest :
      (v w : ℕ)
      → v < 2 ^ 63
      → w < 2 ^ 63
      → counts_index_for l v ≤ counts_index_for l w
      → v ≤ highest_equivalent_value l w
  unfolding highest_equivalent_value next_non_equivalent_value
  le-highest v w fv fw le = elim (ℕ_discrete (counts_index_for l v) (counts_index_for l w)) [
    | yes e ↦
        let around = equivalent_range is v fv in omega (arith, around.1, (same_range v w fv fw e).1)
    | no ne ↦
        let around = equivalent_range is w fw in
        elim (dec_lt v w) [
          | yes lt ↦ omega (arith, around)
          | no ge ↦ absurd (omega (arith, counts_index_mono is w v (omega arith) fv))
        ]
  ]

  -- A value at a place from that of `w` on is not below the range of `w`.
  pub lowest-le :
      (v w : ℕ)
      → v < 2 ^ 63
      → w < 2 ^ 63
      → counts_index_for l w ≤ counts_index_for l v
      → lowest_equivalent_value l w ≤ v
  lowest-le v w fv fw le = elim (ℕ_discrete (counts_index_for l v) (counts_index_for l w)) [
    | yes e ↦
        let around = equivalent_range is v fv in omega (arith, around.0, (same_range v w fv fw e).0)
    | no ne ↦
        let around = equivalent_range is w fw in
        elim (dec_lt v w) [
          | yes lt ↦ absurd (omega (arith, counts_index_mono is v w (omega arith) fw))
          | no ge ↦ omega (arith, around.0)
        ]
  ]
