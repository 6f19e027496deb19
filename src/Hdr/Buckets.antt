-- ===== src/Hdr/Buckets.antt =====
-- Where a value is counted, and which values are counted with it.
use native.Mathlib.Nat.{
  pow-suc, pow-le-pow_right, one-le-pow, add-mul-div_right, add-mul-mod_self_right,
}
use real_time_policy_authori.Common.{
  ℕ, zero, suc, ◌+◌, ◌-◌, ◌*◌, ◌/◌, ◌%◌, ◌^◌, max, ◌<◌, ◌≤◌, ◌≡◌, ◌≢◌, ◌⊎◌, refl, sym, ap, subst,
  ◌∙◌, arith, false, inl, inr, leb, bit_and, dec_lt, ℕ_discrete,
}
use real_time_policy_authori.Common.Bits.{bit_and_low}
use real_time_policy_authori.Hdr.{
  Layout, bit_length, bucket_index, sub_bucket_index, counts_index_for, value_from_index,
  lowest_equivalent_value, size_of_equivalent_value_range, next_non_equivalent_value,
}
use real_time_policy_authori.Hdr.Magnitude.{bit_length-le, bit_length-lt, bit_length-bit_or}

pub pow_add : (a b : ℕ) → 2 ^ (a + b) ≡ 2 ^ a * 2 ^ b
pow_add zero b =
    let none_left : 0 + b ≡ b = omega arith in ap (λ (t : ℕ). 2 ^ t) none_left ∙ omega arith
pow_add (suc a) b =
    let step : suc a + b ≡ suc (a + b) = omega arith in
    ap (λ (t : ℕ). 2 ^ t) step
    ∙ omega (
      arith,
      pow-suc 2 (a + b),
      ap (λ (t : ℕ). t * 2 ^ b) (pow-suc 2 a),
      pow_add a b,
      spread (2 ^ a) (2 ^ b),
    )
  where
    spread : (x y : ℕ) → x * 2 * y ≡ 2 * (x * y)
    spread x y = grind arith

pub pow_pos : (n : ℕ) → 0 < 2 ^ n
pow_pos n = one-le-pow n 2 (omega arith)

-- What the constructor makes of its magnitudes.
pub record IsLayout (l : Layout) : Type 0 where
  pub whole : l.sub_bucket_count ≡ 2 ^ (l.sub_bucket_half_count_magnitude + 1)
  pub half : l.sub_bucket_half_count ≡ 2 ^ l.sub_bucket_half_count_magnitude
  pub mask :
      l.sub_bucket_mask ≡ (2 ^ (l.sub_bucket_half_count_magnitude + 1) - 1) * 2 ^ l.unit_magnitude
  pub room : l.unit_magnitude + l.sub_bucket_half_count_magnitude ≤ 61

div_lt : (v p q : ℕ) → 0 < p → v < q * p → v / p < q
div_lt v p q h k = grind arith

le_div : (v p q : ℕ) → 0 < p → q * p ≤ v → q ≤ v / p
le_div v p q h k = grind arith

div_bounds : (v p : ℕ) → 0 < p → (v / p * p ≤ v) × (v < v / p * p + p)
div_bounds v p h = (grind arith, grind arith)

below_pow : (n v : ℕ) → v < 2 ^ 63 → bit_length 64 v ≤ n → v < 2 ^ n
below_pow n v fits h = elim (dec_lt v (2 ^ n)) [
  | yes lt ↦ lt
  | no ge ↦
      let short = bit_length-le 64 63 v fits in
      elim (dec_lt n 64) [
        | yes small ↦ let long = bit_length-lt 64 n v small (omega arith) in absurd (omega arith)
        | no big ↦
            let wide = pow-le-pow_right {n = 2} (omega arith) {i = 63} {j = n} (omega arith) in
            absurd (omega arith)
      ]
]

module _ {l : Layout} (is : IsLayout l) (v : ℕ) (fits : v < 2 ^ 63) where
  abbrev pub u : ℕ
  u = l.unit_magnitude

  abbrev pub h : ℕ
  h = l.sub_bucket_half_count_magnitude

  mask_lem : bit_length 64 l.sub_bucket_mask ≡ u + h + 1
  mask_lem =
      let top = pow_add (h + 1) u in
      let mid = pow_add h u in
      let twice = pow-suc 2 h in
      let e : h + 1 + u ≡ u + h + 1 = omega arith in
      let e' : h + u ≡ u + h = omega arith in
      let next : 2 ^ (h + 1) ≡ 2 ^ h * 2 = ap (λ (t : ℕ). 2 ^ t) (omega arith) ∙ twice in
      let pos = pow_pos u in
      let pos' = pow_pos h in
      let below : l.sub_bucket_mask < 2 ^ (u + h + 1) =
        subst (λ (t : ℕ). l.sub_bucket_mask < 2 ^ t) e
          (mask_below (2 ^ (h + 1)) (2 ^ u) l.sub_bucket_mask (2 ^ (h + 1 + u)) is.mask top
            (pow_pos (h + 1)) pos) in
      let above : 2 ^ (u + h) ≤ l.sub_bucket_mask =
        subst (λ (t : ℕ). 2 ^ t ≤ l.sub_bucket_mask) e'
          (mask_above (2 ^ h) (2 ^ u) l.sub_bucket_mask (2 ^ (h + 1)) (2 ^ (h + u)) is.mask next mid
            pos') in
      let le = bit_length-le 64 (u + h + 1) l.sub_bucket_mask below in
      let lt = bit_length-lt 64 (u + h) l.sub_bucket_mask (omega (arith, is.room)) above in
      omega arith
    where
      mask_below : (a p m t : ℕ) → m ≡ (a - 1) * p → t ≡ a * p → 0 < a → 0 < p → m < t
      mask_below a p m t em et ha hp = grind arith

      mask_above : (a p m b t : ℕ) → m ≡ (b - 1) * p → b ≡ a * 2 → t ≡ a * p → 0 < a → t ≤ m
      mask_above a p m b t em eb et ha = grind arith

  unfoldable pub bucket : ℕ
  bucket = bucket_index l v

  -- The bucket of a value is the least one whose range is wide enough for it.
  pub bucket_lem : (v < 2 ^ (bucket + u + h + 1)) × ((bucket ≡ 0) ⊎ (2 ^ (bucket + u + h) ≤ v))
  unfolding bucket bucket_index
  bucket_lem =
      let n = bit_length 64 v in
      let index : bucket ≡ max n (u + h + 1) - u - (h + 1) =
        ap (λ (t : ℕ). t - u - (h + 1))
          (bit_length-bit_or 64 v l.sub_bucket_mask ∙ ap (max n) mask_lem) in
      (
        below_pow (bucket + u + h + 1) v fits (omega (arith, index)),
        (elim (dec_lt (u + h + 1) n) [
          | no le ↦ inl (omega (arith, index))
          | yes lt ↦ elim (dec_lt v (2 ^ (bucket + u + h))) [
            | no ge ↦ inr (omega arith)
            | yes small ↦
                let short = bit_length-le 64 (bucket + u + h) v small in
                absurd (omega (arith, index))
          ]
        ]),
      )

  abbrev pub span : ℕ
  span = 2 ^ (bucket + u)

  unfoldable pub sub : ℕ
  sub = sub_bucket_index l v bucket

  sub_lt : sub < 2 ^ (h + 1)
  unfolding sub sub_bucket_index
  sub_lt =
      let split = pow_add (h + 1) (bucket + u) in
      let same : h + 1 + (bucket + u) ≡ bucket + u + h + 1 = omega arith in
      let wide : v < 2 ^ (h + 1) * span =
        omega (arith, split, ap (λ (t : ℕ). 2 ^ t) same, bucket_lem.0) in
      div_lt v span (2 ^ (h + 1)) (pow_pos (bucket + u)) wide

  pub sub_ge : bucket ≢ 0 → 2 ^ h ≤ sub
  unfolding sub sub_bucket_index
  sub_ge nz = elim bucket_lem.1 [
    | inl z ↦ absurd (nz z)
    | inr le ↦
        let split = pow_add h (bucket + u) in
        let same : h + (bucket + u) ≡ bucket + u + h = omega arith in
        le_div v span (2 ^ h) (pow_pos (bucket + u))
          (omega (arith, split, ap (λ (t : ℕ). 2 ^ t) same, le))
  ]

  pub lowest_lem : lowest_equivalent_value l v ≡ sub * span
  unfolding lowest_equivalent_value sub bucket
  lowest_lem = refl

  pub size_lem : size_of_equivalent_value_range l v ≡ span
  unfolding size_of_equivalent_value_range sub bucket
  size_lem =
      let small : leb l.sub_bucket_count sub ≡ false = ground (arith, sub_lt, is.whole) in
      rw small (ap (λ (t : ℕ). 2 ^ t) (omega arith))

  -- The index, as a row and a column.
  pub counts_index_lem : counts_index_for l v ≡ bucket * 2 ^ h + sub
  unfolding counts_index_for sub bucket
  counts_index_lem = omega (arith, is.half, suc_row bucket (2 ^ h))
    where
      suc_row : (b p : ℕ) → (b + 1) * p ≡ b * p + p
      suc_row b p = grind arith

  -- A value lies among those that are counted with it. They are so close together that the difference
  -- is one unit, or at most the value divided by half the number of sub-buckets.
  pub equivalent_range :
      (lowest_equivalent_value l v ≤ v)
      × (v < next_non_equivalent_value l v)
      × ((size_of_equivalent_value_range l v ≡ 2 ^ l.unit_magnitude)
          ⊎ (size_of_equivalent_value_range l v * l.sub_bucket_half_count ≤ v))
  unfolding next_non_equivalent_value sub sub_bucket_index
  equivalent_range =
      let around = div_bounds v span (pow_pos (bucket + u)) in
      (
        omega (arith, lowest_lem, around.0),
        omega (arith, lowest_lem, size_lem, around.1),
        (elim bucket_lem.1 [
          | inl z ↦ inl (size_lem ∙ ap (λ (t : ℕ). 2 ^ t) (omega (arith, z)))
          | inr le ↦
              let split = pow_add (bucket + u) h in
              inr (
                subst (λ t. t ≤ v)
                  (sym (
                    ap (λ (t : ℕ). t * l.sub_bucket_half_count) size_lem
                    ∙ ap (λ (t : ℕ). span * t) is.half
                    ∙ sym split))
                  le)
        ]),
      )

  -- The row and the column are found again.
  pub value_from_index-counts_index :
      value_from_index l (counts_index_for l v) ≡ lowest_equivalent_value l v
  unfolding value_from_index
  value_from_index-counts_index =
      let p = 2 ^ h in
      let index = bucket * p + sub in
      let column : bit_and index (l.sub_bucket_half_count - 1) ≡ index % p =
        ap (λ (t : ℕ). bit_and index (t - 1)) is.half ∙ bit_and_low h index in
      let twice : 2 ^ (h + 1) ≡ p * 2 = ap (λ (t : ℕ). 2 ^ t) (omega arith) ∙ pow-suc 2 h in
      let (row, rest) = split_lem bucket sub p (pow_pos h) in
      ap (value_from_index l) counts_index_lem ∙ (elim (dec_lt sub p) [
        | yes small ↦
            let first : bucket ≡ 0 = elim (ℕ_discrete bucket 0) [
              | yes z ↦ z
              | no nz ↦ absurd (omega (arith, sub_ge nz))
            ] in
            let (quotient, remainder) = row_zero sub p small in
            let here : index / p ≡ 0 = omega arith in
            let left : bit_and index (l.sub_bucket_half_count - 1)
                  + l.sub_bucket_half_count
                  - l.sub_bucket_half_count
                ≡ sub =
              omega arith in
            let power : 2 ^ u ≡ 2 ^ (bucket + u) = ap (λ (t : ℕ). 2 ^ t) (omega (arith, first)) in
            let product = ap (λ (t : ℕ). t * 2 ^ u) left ∙ ap (λ (t : ℕ). sub * t) power in
            ground (arith, here, product, lowest_lem)
        | no ge ↦
            let (quotient, remainder) =
              row_one sub p (omega arith) (omega (arith, sub_lt, twice)) in
            let here : index / p ≡ bucket + 1 = omega arith in
            let left : bit_and index (l.sub_bucket_half_count - 1) + l.sub_bucket_half_count ≡ sub =
              omega (arith, is.half) in
            let power : 2 ^ (index / p - 1 + u) ≡ 2 ^ (bucket + u) =
              ap (λ (t : ℕ). 2 ^ t) (omega arith) in
            let product =
              ap (λ (t : ℕ). t * 2 ^ (index / p - 1 + u)) left ∙ ap (λ (t : ℕ). sub * t) power in
            ground (arith, here, product, lowest_lem)
      ])
    where
      split_lem : (b s p : ℕ) → 0 < p → ((b * p + s) / p ≡ b + s / p) × ((b * p + s) % p ≡ s % p)
      split_lem b s p hp =
          let turned : b * p + s ≡ s + b * p = omega arith in
          (
            ap (λ (t : ℕ). t / p) turned ∙ add-mul-div_right s b hp ∙ omega arith,
            ap (λ (t : ℕ). t % p) turned ∙ add-mul-mod_self_right s b p,
          )

      row_zero : (s p : ℕ) → s < p → (s / p ≡ 0) × (s % p ≡ s)
      row_zero s p lt = (grind arith, grind arith)

      row_one : (s p : ℕ) → p ≤ s → s < p * 2 → (s / p ≡ 1) × (s % p + p ≡ s)
      row_one s p le lt = (grind arith, grind arith)

  -- The two parts of the index, bounded.
  pub counts_index_bounds :
      (counts_index_for l v < bucket * 2 ^ h + 2 ^ h * 2)
      × ((bucket ≡ 0) ⊎ (bucket * 2 ^ h + 2 ^ h ≤ counts_index_for l v))
  counts_index_bounds =
      let twice : 2 ^ (h + 1) ≡ 2 ^ h * 2 = ap (λ (t : ℕ). 2 ^ t) (omega arith) ∙ pow-suc 2 h in
      (
        omega (arith, counts_index_lem, sub_lt, twice),
        (elim (ℕ_discrete bucket 0) [
          | yes z ↦ inl z
          | no nz ↦ inr (omega (arith, counts_index_lem, sub_ge nz))
        ]),
      )
