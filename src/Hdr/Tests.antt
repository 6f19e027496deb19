-- ===== src/Hdr/Tests.antt =====
-- Runs of the histogram on concrete values, and the theorems at concrete inputs.
use real_time_policy_authori.Common.{
  ℕ, ◌+◌, ◌-◌, ◌*◌, ◌^◌, min, max, ◌<◌, ◌≤◌, ◌≡◌, ◌≢◌, ◌⊎◌, refl, arith, true, false, ltb, memb, [],
  ◌∷◌, ◌++◌, replicate,
}
use real_time_policy_authori.Hdr.{
  pos, negsuc, Layout, HdrHistogram, bit_length, buckets_for, make_layout, create, counts_index_for,
  value_from_index, bucket_index, sub_bucket_index, lowest_equivalent_value,
  highest_equivalent_value, size_of_equivalent_value_range, next_non_equivalent_value, record_value,
  record_n, add, value_at_percentile, note, reach,
}
use real_time_policy_authori.Hdr.Buckets.{equivalent_range}
use real_time_policy_authori.Hdr.Capacity.{make_layout-IsTrackable, counts_index_lt}
use real_time_policy_authori.Hdr.History.{kept}
use real_time_policy_authori.Hdr.Counts.{
  Tracks, create-Tracks, record_value-Tracks, record_n-Tracks,
}
use real_time_policy_authori.Hdr.Merge.{add-Tracks}
use real_time_policy_authori.Hdr.Percentile.{at_most, below, value_at_percentile-Rank}

abbrev small : Layout
small = make_layout 1 1000 1

abbrev fresh : HdrHistogram
fresh = create 1 1000 1

fresh-Tracks : Tracks fresh []
fresh-Tracks = create-Tracks 1 1000 1 (omega arith) (omega arith)

abbrev one : HdrHistogram
one = record_value fresh (pos 700)

abbrev some_values : HdrHistogram
some_values = record_n one (pos 2000) (pos 3)

some_values-Tracks : Tracks some_values (replicate 3 (pos 2000) ++ (pos 700 ∷ []))
some_values-Tracks = record_n-Tracks (record_value-Tracks fresh-Tracks (pos 700)) (pos 2000) 3

equivalent_range_example :
    (lowest_equivalent_value small 700 ≤ 700)
    × (700 < next_non_equivalent_value small 700)
    × ((size_of_equivalent_value_range small 700 ≡ 2 ^ small.unit_magnitude)
        ⊎ (size_of_equivalent_value_range small 700 * small.sub_bucket_half_count ≤ 700))
equivalent_range_example =
    equivalent_range (make_layout-IsTrackable 1 1000 1 (omega arith) (omega arith)).is_layout 700
      (omega arith)

counts_index_lt_example :
    counts_index_for small 1000 < (small.bucket_count + 1) * small.sub_bucket_half_count
unfolding make_layout
counts_index_lt_example =
    counts_index_lt (make_layout-IsTrackable 1 1000 1 (omega arith) (omega arith)) 1000
      (omega arith)

record_value-Tracks_example : Tracks (record_value one (negsuc 4)) (negsuc 4 ∷ pos 700 ∷ [])
record_value-Tracks_example =
    record_value-Tracks (record_value-Tracks fresh-Tracks (pos 700)) (negsuc 4)

record_n-Tracks_example :
    Tracks (record_n one (pos 2000) (pos 3)) (replicate 3 (pos 2000) ++ (pos 700 ∷ []))
record_n-Tracks_example = record_n-Tracks (record_value-Tracks fresh-Tracks (pos 700)) (pos 2000) 3

add-Tracks_example :
    ((add one one).0 ≡ true) × Tracks (add one one).1 ((pos 700 ∷ []) ++ (pos 700 ∷ []))
unfolding create record_value record_n note
add-Tracks_example =
    add-Tracks small refl refl (record_value-Tracks fresh-Tracks (pos 700))
      (record_value-Tracks fresh-Tracks (pos 700))

some_value : some_values.total_count ≢ 0
unfolding record_n record_value create make_layout buckets_for bit_length counts_index_for
    bucket_index sub_bucket_index note
some_value h = omega (arith, h)

value_at_percentile-Rank_example :
    (w : ℕ) × (memb w (kept some_values.layout.highest (replicate 3 (pos 2000) ++ (pos 700 ∷ [])))
      ≡ true)
    × (value_at_percentile some_values 2 ≡ highest_equivalent_value some_values.layout w)
    × (min (max 2 1) some_values.total_count
        ≤ at_most
            (value_at_percentile some_values 2)
            (kept some_values.layout.highest (replicate 3 (pos 2000) ++ (pos 700 ∷ []))))
    × (below
          (lowest_equivalent_value some_values.layout w)
          (kept some_values.layout.highest (replicate 3 (pos 2000) ++ (pos 700 ∷ [])))
        < min (max 2 1) some_values.total_count)
value_at_percentile-Rank_example = value_at_percentile-Rank some_values-Tracks 2 some_value

-- The answer for 700 is the top of its range, which is 32 wide.
answer : value_at_percentile some_values 1 ≡ 703
unfolding record_n record_value create make_layout buckets_for bit_length counts_index_for
    bucket_index sub_bucket_index value_at_percentile highest_equivalent_value value_from_index note
    reach next_non_equivalent_value lowest_equivalent_value size_of_equivalent_value_range
answer = refl

-- A bucket loop that stops at 2^62 leaves no place for a value above it.
past_the_end :
    ltb (counts_index_for (make_layout 1 (2 ^ 63 - 1) 3) (2 ^ 63 - 1)) (
      ((make_layout 1 (2 ^ 63 - 1) 3).bucket_count + 1)
      * (make_layout 1 (2 ^ 63 - 1) 3).sub_bucket_half_count)
    ≡ false
unfolding make_layout buckets_for bit_length counts_index_for bucket_index sub_bucket_index
past_the_end = refl
