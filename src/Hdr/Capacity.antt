-- ===== src/Hdr/Capacity.antt =====
-- The constructor makes a table with a place for every value up to `highest`.
use native.Mathlib.Nat.{pow-suc, pow-le-pow_right}
use real_time_policy_authori.Common.{
  ℕ, zero, suc, ◌+◌, ◌-◌, ◌*◌, ◌/◌, ◌^◌, max, ◌<◌, ◌≤◌, ◌≡◌, ◌≢◌, refl, sym, ap, ◌∙◌, arith, Bool,
  true, false, ◌&&◌, ◌||◌, inl, inr, ◌==◌, leb, ltb, if◌then◌else◌, Bool-cases, dec_lt, length,
  length-replicate, all_below, all_below_sound,
}
use real_time_policy_authori.Hdr.{
  Layout, HdrHistogram, bit_length, buckets_for, make_layout, create, clamp_figures,
  counts_index_for,
}
use real_time_policy_authori.Hdr.Magnitude.{bit_length-le}
use real_time_policy_authori.Hdr.Buckets.{
  IsLayout, bucket, bucket_lem, counts_index_bounds, pow_add,
}

-- A layout whose buckets reach past `highest`, and whose half bucket resolves the figures asked for.
pub record IsTrackable (l : Layout) : Type 0 where
  pub is_layout : IsLayout l
  pub reaches :
      l.highest < 2 ^ (l.sub_bucket_half_count_magnitude + l.unit_magnitude + l.bucket_count)
  pub some_bucket : 1 ≤ l.bucket_count
  pub word : l.highest < 2 ^ 62
  pub resolves : 10 ^ l.significant_figures ≤ l.sub_bucket_half_count

buckets_for_lem :
    (fuel c b highest : ℕ)
    → highest < 2 ^ 62
    → 62 ≤ c + b + fuel
    → (highest < 2 ^ (c + buckets_for fuel (2 ^ (c + b)) highest b))
      × (b ≤ buckets_for fuel (2 ^ (c + b)) highest b)
unfolding buckets_for
buckets_for_lem zero c b highest word enough =
    let wide = pow-le-pow_right {n = 2} (omega arith) {i = 62} {j = c + b} (omega arith) in
    (omega arith, omega arith)
buckets_for_lem (suc fuel) c b highest word enough = elim (Bool-cases (leb (2 ^ (c + b)) highest)) [
  | inr past ↦ rw past (ground arith, omega arith)
  | inl tracked ↦
      let more : ltb ((2 ^ 63 - 1) / 2) (2 ^ (c + b)) ≡ false = ground arith in
      let next : 2 ^ (c + b) * 2 ≡ 2 ^ (c + (b + 1)) =
        sym (pow-suc 2 (c + b)) ∙ ap (λ (t : ℕ). 2 ^ t) (omega arith) in
      let rest = buckets_for_lem fuel c (b + 1) highest word (omega arith) in
      rw (tracked, more, next) (rest.0, omega (arith, rest.1))
]

-- the magnitude of every number of figures
abbrev is_fine : ℕ → Bool
is_fine f =
    let m = bit_length 64 (2 * 10 ^ f - 1) in
    f == 0 || leb 1 m && leb m 18 && leb (10 ^ f) (2 ^ (m - 1))

fine_table : all_below 6 is_fine ≡ true
unfolding bit_length
fine_table = refl

read_fine :
    (f m p q : ℕ)
    → f ≢ 0
    → (f == 0 || leb 1 m && leb m 18 && leb p q) ≡ true
    → (1 ≤ m) × (m ≤ 18) × (p ≤ q)
read_fine f m p q nz h = ground arith

raised_lt :
    (lo highest : ℕ)
    → lo < 2 ^ 40 + 1
    → highest < 2 ^ 62
    → (if ltb highest (lo * 2) then lo * 2 else highest) < 2 ^ 62
raised_lt lo highest small word = ground arith

pub make_layout-IsTrackable :
    (lowest highest figures : ℕ)
    → lowest < 2 ^ 40
    → highest < 2 ^ 62
    → IsTrackable (make_layout lowest highest figures)
unfolding make_layout
make_layout-IsTrackable lowest highest figures small word =
    let lo = max lowest 1 in
    let hi = if ltb highest (lo * 2) then lo * 2 else highest in
    let f = clamp_figures figures in
    let m = bit_length 64 (2 * 10 ^ f - 1) in
    let u = bit_length 64 lo - 1 in
    let fine : is_fine f ≡ true = all_below_sound 6 is_fine f fine_table (omega arith) in
    let (m_pos, m_small, resolves) = read_fine f m (10 ^ f) (2 ^ (m - 1)) (omega arith) fine in
    let u_small : u ≤ 39 = omega (arith, bit_length-le 64 40 lo (omega arith)) in
    let hi_small : hi < 2 ^ 62 = raised_lt lo highest (omega arith) word in
    let magnitude : m - 1 + 1 ≡ m = omega arith in
    let whole : 2 ^ m ≡ 2 ^ (m - 1 + 1) = ap (λ (t : ℕ). 2 ^ t) (sym magnitude) in
    let half : 2 ^ m / 2 ≡ 2 ^ (m - 1) =
      omega (arith, whole, pow-suc 2 (m - 1), ap (λ (t : ℕ). 2 ^ t) (add_one (m - 1))) in
    let start : 2 ^ m * 2 ^ u ≡ 2 ^ (m - 1 + u + 1) =
      sym (pow_add m u) ∙ ap (λ (t : ℕ). 2 ^ t) (omega arith) in
    let (reaches, some_bucket) = buckets_for_lem 64 (m - 1 + u) 1 hi hi_small (omega arith) in
    record {
      is_layout = record {
        whole = whole;
        half = half;
        mask = ap (λ (t : ℕ). (t - 1) * 2 ^ u) whole;
        room = omega arith;
      };
      reaches = rw start reaches;
      some_bucket = rw start some_bucket;
      word = hi_small;
      resolves = omega (arith, half, resolves);
    }
  where
    add_one : (n : ℕ) → n + 1 ≡ suc n
    add_one n = omega arith

-- In a layout whose buckets reach past the highest value, every value up to it has its place in the table.
pub counts_index_lt :
    {l : Layout}
    → IsTrackable l
    → (v : ℕ) → v ≤ l.highest
    → counts_index_for l v < (l.bucket_count + 1) * l.sub_bucket_half_count
counts_index_lt {l} t v le =
    let fits : v < 2 ^ 63 = omega (arith, t.word) in
    let p = 2 ^ l.sub_bucket_half_count_magnitude in
    let b = bucket t.is_layout v fits in
    let (below, x) = counts_index_bounds t.is_layout v fits in
    let (y, lower) = bucket_lem t.is_layout v fits in
    let within : b < l.bucket_count = elim lower [
      | inl z ↦ omega (arith, t.some_bucket)
      | inr above ↦ elim (dec_lt b l.bucket_count) [
        | yes lt ↦ lt
        | no ge ↦
            let wide =
              pow-le-pow_right {n = 2} (omega arith)
                {i = l.sub_bucket_half_count_magnitude + l.unit_magnitude + l.bucket_count}
                {j = b + l.unit_magnitude + l.sub_bucket_half_count_magnitude} (omega arith) in
            absurd (omega (arith, t.reaches))
      ]
    ] in
    let rows = rows_lem b l.bucket_count p within in
    let half = ap (λ (q : ℕ). (l.bucket_count + 1) * q) t.is_layout.half in
    omega (arith, below, rows, half)
  where
    rows_lem : (a b p : ℕ) → a < b → a * p + p * 2 ≤ (b + 1) * p
    rows_lem a b p lt = grind arith

-- the table that goes with a layout
pub record IsSized (t : HdrHistogram) : Type 0 where
  pub trackable : IsTrackable t.layout
  pub sized : length t.counts ≡ (t.layout.bucket_count + 1) * t.layout.sub_bucket_half_count

pub create-IsSized :
    (lowest highest figures : ℕ)
    → lowest < 2 ^ 40
    → highest < 2 ^ 62
    → IsSized (create lowest highest figures)
unfolding create
create-IsSized lowest highest figures small word = record {
  trackable = make_layout-IsTrackable lowest highest figures small word;
  sized = length-replicate _ 0;
}
