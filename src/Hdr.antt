-- ===== src/Hdr.antt =====
-- include/policy/hdr_histogram.hpp: the latency histogram. Values are 64-bit signed numbers, so `record`
-- takes an integer; the arithmetic of the buckets is on values that are not negative. `std::log2` and
-- `std::pow` are the exact logarithms and powers: they are on the arguments that are less than 2^48.
-- Counters do not wrap around. The percentile is a `double`; its only use, the rank that it stands for,
-- is the argument `rank`.
pub mod Magnitude
pub mod Buckets
pub mod Order
pub mod Capacity
pub mod History
pub mod Counts
pub mod Merge
pub mod Rank
pub mod Percentile
mod Tests
use real_time_policy_authori.Common.{
  ℕ, zero, suc, ◌+◌, ◌-◌, ◌*◌, ◌/◌, ◌%◌, ◌^◌, min, max, Bool, true, false, ◌&&◌, ◌||◌, not, Option,
  none, some, List, [], ◌∷◌, length, get_or, set, replicate, ◌==◌, ltb, leb, if◌then◌else◌, bit_and,
  bit_or,
}

pub data ℤ : Type 0 where
  pos : ℕ → ℤ
  negsuc : ℕ → ℤ

-- `64 - __builtin_clzll(v)`, which is the place of the highest bit; a value has at most 64
unfoldable pub bit_length : ℕ → ℕ → ℕ
bit_length zero v = 0
bit_length (suc fuel) v = let rest = bit_length fuel (v / 2) in if v == 0 then 0 else suc rest

pub record Layout : Type 0 where
  pub lowest : ℕ
  pub highest : ℕ
  pub significant_figures : ℕ
  pub unit_magnitude : ℕ
  pub sub_bucket_half_count_magnitude : ℕ
  pub sub_bucket_count : ℕ
  pub sub_bucket_half_count : ℕ
  pub sub_bucket_mask : ℕ
  pub bucket_count : ℕ

pub record HdrHistogram : Type 0 where
  pub layout : Layout
  pub counts : List ℕ
  pub total_count : ℕ
  pub overflow_count : ℕ
  pub negative_count : ℕ
  pub min_value : ℕ
  pub max_value : ℕ

-- the loop of the constructor that counts the buckets; it doubles a number below 2^63
unfoldable pub buckets_for : ℕ → ℕ → ℕ → ℕ → ℕ
buckets_for zero smallest_untrackable highest buckets = buckets
buckets_for (suc fuel) smallest_untrackable highest buckets =
    let rest = buckets_for fuel (smallest_untrackable * 2) highest (buckets + 1) in
    if leb smallest_untrackable highest
    then (if ltb ((2 ^ 63 - 1) / 2) smallest_untrackable then buckets else rest)
    else buckets

-- the constructor's clamps: one figure at least, and five at most
abbrev pub clamp_figures : ℕ → ℕ
clamp_figures f = min (max f 1) 5

unfoldable pub make_layout : ℕ → ℕ → ℕ → Layout
unfolding bit_length
make_layout lowest highest significant_figures =
    let lo = max lowest 1 in
    let figures = clamp_figures significant_figures in
    let hi = if ltb highest (lo * 2) then lo * 2 else highest in
    let unit = bit_length 64 lo - 1 in
    let magnitude = bit_length 64 (2 * 10 ^ figures - 1) in
    record {
      lowest = lo;
      highest = hi;
      significant_figures = figures;
      unit_magnitude = unit;
      sub_bucket_half_count_magnitude = magnitude - 1;
      sub_bucket_count = 2 ^ magnitude;
      sub_bucket_half_count = 2 ^ magnitude / 2;
      sub_bucket_mask = (2 ^ magnitude - 1) * 2 ^ unit;
      bucket_count = buckets_for 64 (2 ^ magnitude * 2 ^ unit) hi 1;
    }

-- the constructor
unfoldable pub create : ℕ → ℕ → ℕ → HdrHistogram
unfolding make_layout
create lowest highest significant_figures =
    let l = make_layout lowest highest significant_figures in
    record {
      layout = l;
      counts = replicate ((l.bucket_count + 1) * l.sub_bucket_half_count) 0;
      total_count = 0;
      overflow_count = 0;
      negative_count = 0;
      min_value = 0;
      max_value = 0;
    }

unfoldable pub bucket_index : Layout → ℕ → ℕ
bucket_index l value =
    bit_length 64 (bit_or value l.sub_bucket_mask)
    - l.unit_magnitude
    - (l.sub_bucket_half_count_magnitude + 1)

unfoldable pub sub_bucket_index : Layout → ℕ → ℕ → ℕ
sub_bucket_index l value bucket = value / 2 ^ (bucket + l.unit_magnitude)

-- the sum before the difference: `s - sub_bucket_half_count_` may be negative in the first bucket
unfoldable pub counts_index_for : Layout → ℕ → ℕ
counts_index_for l value =
    let b = bucket_index l value in
    let s = sub_bucket_index l value b in
    (b + 1) * 2 ^ l.sub_bucket_half_count_magnitude + s - l.sub_bucket_half_count

unfoldable pub value_from_index : Layout → ℕ → ℕ
value_from_index l index =
    let row = index / 2 ^ l.sub_bucket_half_count_magnitude in
    let sub = bit_and index (l.sub_bucket_half_count - 1) + l.sub_bucket_half_count in
    if row == 0
    then (sub - l.sub_bucket_half_count) * 2 ^ l.unit_magnitude
    else sub * 2 ^ (row - 1 + l.unit_magnitude)

unfoldable pub lowest_equivalent_value : Layout → ℕ → ℕ
lowest_equivalent_value l value =
    let b = bucket_index l value in sub_bucket_index l value b * 2 ^ (b + l.unit_magnitude)

unfoldable pub size_of_equivalent_value_range : Layout → ℕ → ℕ
size_of_equivalent_value_range l value =
    let b = bucket_index l value in
    let s = sub_bucket_index l value b in
    2 ^ (l.unit_magnitude + (if leb l.sub_bucket_count s then b + 1 else b))

unfoldable pub next_non_equivalent_value : Layout → ℕ → ℕ
next_non_equivalent_value l value =
    lowest_equivalent_value l value + size_of_equivalent_value_range l value

unfoldable pub highest_equivalent_value : Layout → ℕ → ℕ
highest_equivalent_value l value = next_non_equivalent_value l value - 1

unfoldable pub median_equivalent_value : Layout → ℕ → ℕ
median_equivalent_value l value =
    lowest_equivalent_value l value + size_of_equivalent_value_range l value / 2

-- `counts_[i] += n`
abbrev pub bump : List ℕ → ℕ → ℕ → List ℕ
bump counts i n = set counts i (get_or counts i 0 + n)

-- the second half of `record` and `record_n`, for a value in range that occurs `n` times
unfoldable pub note : HdrHistogram → ℕ → ℕ → HdrHistogram
note t value n =
    let total = t.total_count + n in
    record t {
      counts = bump t.counts (counts_index_for t.layout value) n;
      total_count = total;
      max_value = if ltb t.max_value value || total == n then value else t.max_value;
      min_value = if ltb value t.min_value || total == n then value else t.min_value;
    }

unfoldable pub record_value : HdrHistogram → ℤ → HdrHistogram
unfolding note
record_value t (negsuc k) = record t { negative_count = t.negative_count + 1 }
record_value t (pos value) =
    if ltb t.layout.highest value
    then note (record t { overflow_count = t.overflow_count + 1 }) t.layout.highest 1
    else note t value 1

unfoldable pub record_n : HdrHistogram → ℤ → ℤ → HdrHistogram
unfolding note
record_n t value (negsuc k) = t
record_n t value (pos zero) = t
record_n t (negsuc k) (pos (suc n)) = record t { negative_count = t.negative_count + suc n }
record_n t (pos value) (pos (suc n)) =
    if ltb t.layout.highest value
    then note (record t { overflow_count = t.overflow_count + suc n }) t.layout.highest (suc n)
    else note t value (suc n)

unfoldable pub reset : HdrHistogram → HdrHistogram
reset t = record t {
  counts = replicate (length t.counts) 0;
  total_count = 0;
  overflow_count = 0;
  negative_count = 0;
  min_value = 0;
  max_value = 0;
}

-- the loop of `add`, over arrays of one length
unfoldable pub add_counts : List ℕ → List ℕ → List ℕ
add_counts (x ∷ xs) (y ∷ ys) = (x + y) ∷ add_counts xs ys
add_counts xs _ = xs

unfoldable pub add : HdrHistogram → HdrHistogram → Bool × HdrHistogram
unfolding add_counts
add t other =
    if not (length t.counts == length other.counts)
      || not (t.layout.unit_magnitude == other.layout.unit_magnitude)
      || not (t.layout.sub_bucket_count == other.layout.sub_bucket_count)
    then (false, t)
    else (
      true,
      record t {
        counts = add_counts t.counts other.counts;
        total_count = t.total_count + other.total_count;
        overflow_count = t.overflow_count + other.overflow_count;
        negative_count = t.negative_count + other.negative_count;
        min_value =
            if other.total_count == 0
            then t.min_value
            else (if t.total_count == 0 then other.min_value else min t.min_value other.min_value);
        max_value =
            if other.total_count == 0
            then t.max_value
            else (if t.total_count == 0 then other.max_value else max t.max_value other.max_value);
      },
    )

-- the accessors `min` and `max`
abbrev pub min_recorded : HdrHistogram → ℕ
min_recorded t = if t.total_count == 0 then 0 else t.min_value

abbrev pub max_recorded : HdrHistogram → ℕ
max_recorded t = if t.total_count == 0 then 0 else t.max_value

-- the loop of `value_at_percentile`, from index `i`: the first one where the sum reaches `target`
unfoldable pub reach : ℕ → List ℕ → ℕ → ℕ → Option ℕ
reach target [] i running = none
reach target (c ∷ counts) i running =
    let rest = reach target counts (i + 1) (running + c) in
    if leb target (running + c) then some i else rest

unfoldable pub value_at_percentile : HdrHistogram → ℕ → ℕ
unfolding reach
value_at_percentile t rank =
    if t.total_count == 0 then 0 else elim (reach (min (max rank 1) t.total_count) t.counts 0 0) [
      | some i ↦ highest_equivalent_value t.layout (value_from_index t.layout i)
      | none ↦ t.max_value
    ]

unfoldable pub count_at_value : HdrHistogram → ℤ → ℕ
count_at_value t (negsuc k) = 0
count_at_value t (pos value) =
    get_or t.counts (counts_index_for t.layout (min value t.layout.highest)) 0
