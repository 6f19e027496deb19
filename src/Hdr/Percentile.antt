-- ===== src/Hdr/Percentile.antt =====
-- `value_at_percentile`: the answer stands for the bucket of the value that has the rank asked for.
use real_time_policy_authori.Common.{
  ℕ, zero, suc, ◌+◌, ◌*◌, ◌^◌, min, max, ◌<◌, ◌≤◌, ◌≡◌, ◌≢◌, inl, inr, refl, sym, ap, ◌∙◌, arith,
  Bool, true, false, some, List, [], ◌∷◌, length, get_or, ◌==◌, ltb, leb, if◌then◌else◌, Bool-cases,
  ℕ_discrete, memb, ◌&&◌,
}
use real_time_policy_authori.Hdr.{
  ℤ, pos, negsuc, Layout, HdrHistogram, counts_index_for, value_from_index, lowest_equivalent_value,
  highest_equivalent_value, value_at_percentile, reach,
}
use real_time_policy_authori.Hdr.Rank.{highest-value_from_index, le-highest, lowest-le}
use real_time_policy_authori.Hdr.Capacity.{IsTrackable, counts_index_lt}
use real_time_policy_authori.Hdr.History.{kept, occurrences}
use real_time_policy_authori.Hdr.Counts.{Tracks}

-- how many values are at most `q`
unfoldable pub at_most : ℕ → List ℕ → ℕ
at_most q [] = 0
at_most q (v ∷ vs) = let rest = at_most q vs in if leb v q then suc rest else rest

-- how many values are below `q`
unfoldable pub below : ℕ → List ℕ → ℕ
below q [] = 0
below q (v ∷ vs) = let rest = below q vs in if ltb v q then suc rest else rest

-- how many values are counted before an index
unfoldable before : Layout → ℕ → List ℕ → ℕ
before l n [] = 0
before l n (v ∷ vs) =
    let rest = before l n vs in if ltb (counts_index_for l v) n then suc rest else rest

-- the sum of the first places of a table
abbrev sum_first : ℕ → List ℕ → ℕ
sum_first zero counts = 0
sum_first (suc n) [] = 0
sum_first (suc n) (c ∷ counts) = c + sum_first n counts

-- The loop stops at the first place where the sum is enough.
reach-IsFirst :
    (target : ℕ) (counts : List ℕ) (i running : ℕ)
    → running < target
    → target ≤ running + sum_first (length counts) counts
    → (k : ℕ) × (reach target counts i running ≡ some (i + k))
      × (target ≤ running + sum_first (suc k) counts)
      × (running + sum_first k counts < target)
unfolding reach
reach-IsFirst target [] i running lt le = absurd (omega arith)
reach-IsFirst target (c ∷ counts) i running lt le = elim (Bool-cases (leb target (running + c))) [
  | inl here ↦ (0, rw here (ap some (omega arith)), ground arith, omega arith)
  | inr more ↦
      let (k, found, enough, short) =
        reach-IsFirst target counts (i + 1) (running + c) (ground arith) (omega arith) in
      (suc k, rw more (found ∙ ap some (omega arith)), omega (arith, enough), omega (arith, short))
]

sum_first-suc :
    (n : ℕ) (counts : List ℕ) → sum_first (suc n) counts ≡ sum_first n counts + get_or counts n 0
sum_first-suc zero [] = refl
sum_first-suc zero (c ∷ counts) = omega arith
sum_first-suc (suc n) [] = refl
sum_first-suc (suc n) (c ∷ counts) = omega (arith, sum_first-suc n counts)

before-suc :
    (l : Layout) (n : ℕ) (ws : List ℕ) → before l (suc n) ws ≡ before l n ws + occurrences l n ws
unfolding before occurrences
before-suc l n [] = refl
before-suc l n (v ∷ ws) = ground (arith, before-suc l n ws)

before_zero : (l : Layout) (ws : List ℕ) → before l 0 ws ≡ 0
unfolding before
before_zero l [] = refl
before_zero l (v ∷ ws) = ground (arith, before_zero l ws)

-- A sum of the table counts the values before an index.
sum_first_lem :
    (l : Layout) (counts ws : List ℕ)
    → ((i : ℕ) → get_or counts i 0 ≡ occurrences l i ws)
    → (n : ℕ) → sum_first n counts ≡ before l n ws
sum_first_lem l counts ws h zero = sym (before_zero l ws)
sum_first_lem l counts ws h (suc n) =
    omega (arith, sum_first-suc n counts, before-suc l n ws, h n, sum_first_lem l counts ws h n)

-- A place that counts something counts a value.
value_at :
    (l : Layout) (i : ℕ) (ws : List ℕ)
    → 0 < occurrences l i ws
    → (w : ℕ) × (memb w ws ≡ true) × (counts_index_for l w ≡ i)
unfolding occurrences
value_at l i [] h = absurd (omega arith)
value_at l i (v ∷ ws) h = elim (ℕ_discrete (counts_index_for l v) i) [
  | yes e ↦ (v, ground arith, e)
  | no ne ↦ let (w, mem, e) = value_at l i ws (ground arith) in (w, ground arith, e)
]

-- every value is at most `highest`
abbrev all_le : ℕ → List ℕ → Bool
all_le highest [] = true
all_le highest (v ∷ ws) = leb v highest && all_le highest ws

kept-all_le : (highest : ℕ) (vs : List ℤ) → all_le highest (kept highest vs) ≡ true
unfolding kept
kept-all_le highest [] = refl
kept-all_le highest (pos v ∷ vs) = ground (arith, kept-all_le highest vs)
kept-all_le highest (negsuc k ∷ vs) = kept-all_le highest vs

memb-le : (highest w : ℕ) (ws : List ℕ) → all_le highest ws ≡ true → memb w ws ≡ true → w ≤ highest
memb-le highest w [] h m = ground arith
memb-le highest w (v ∷ ws) h m = ground (arith, memb-le highest w ws)

module _ {l : Layout} (t : IsTrackable l) where
  before_all :
      (ws : List ℕ)
      → all_le l.highest ws ≡ true
      → before l ((l.bucket_count + 1) * l.sub_bucket_half_count) ws ≡ length ws
  unfolding before
  before_all [] h = refl
  before_all (v ∷ ws) h =
      ground (arith, counts_index_lt t v (ground arith), before_all ws (ground arith))

  le-at_most :
      (w : ℕ) (ws : List ℕ)
      → w ≤ l.highest
      → all_le l.highest ws ≡ true
      → before l (suc (counts_index_for l w)) ws ≤ at_most (highest_equivalent_value l w) ws
  unfolding before at_most
  le-at_most w [] hw h = omega arith
  le-at_most w (v ∷ ws) hw h =
      let fv : v ≤ l.highest = ground arith in
      let inside = le-highest t.is_layout v w (omega (arith, t.word)) (omega (arith, t.word)) in
      ground (arith, inside, le-at_most w ws hw (ground arith))

  below-le :
      (w : ℕ) (ws : List ℕ)
      → w ≤ l.highest
      → all_le l.highest ws ≡ true
      → below (lowest_equivalent_value l w) ws ≤ before l (counts_index_for l w) ws
  unfolding before below
  below-le w [] hw h = omega arith
  below-le w (v ∷ ws) hw h =
      let fv : v ≤ l.highest = ground arith in
      let outside = lowest-le t.is_layout v w (omega (arith, t.word)) (omega (arith, t.word)) in
      ground (arith, outside, below-le w ws hw (ground arith))

-- After any history with a value in it, the answer is the top of the range of a value that was recorded.
-- At least as many values as the rank asks for are at most the answer, and fewer are below that range.
pub value_at_percentile-Rank :
    {t : HdrHistogram} {vs : List ℤ}
    → Tracks t vs
    → (rank : ℕ) → t.total_count ≢ 0
    → (w : ℕ) × (memb w (kept t.layout.highest vs) ≡ true)
      × (value_at_percentile t rank ≡ highest_equivalent_value t.layout w)
      × (min (max rank 1) t.total_count
          ≤ at_most (value_at_percentile t rank) (kept t.layout.highest vs))
      × (below (lowest_equivalent_value t.layout w) (kept t.layout.highest vs)
          < min (max rank 1) t.total_count)
unfolding value_at_percentile
value_at_percentile-Rank {t} {vs} h rank some_value =
    let l = t.layout in
    let ws = kept l.highest vs in
    let target = min (max rank 1) t.total_count in
    let small = kept-all_le l.highest vs in
    let track = h.counts.is_sized.trackable in
    let sums = sum_first_lem l t.counts ws h.counts.counted in
    let whole : sum_first (length t.counts) t.counts ≡ t.total_count =
      sums (length t.counts)
      ∙ ap (λ (n : ℕ). before l n ws) h.counts.is_sized.sized
      ∙ before_all track ws small
      ∙ sym h.counts.total in
    let (k, found, enough, short) =
      reach-IsFirst target t.counts 0 0 (omega arith) (omega (arith, whole)) in
    let here : reach target t.counts 0 0 ≡ some k = found ∙ ap some (omega arith) in
    let (w, mem, place) =
      value_at l k ws (omega (arith, enough, short, sums (suc k), sums k, before-suc l k ws)) in
    let hw = memb-le l.highest w ws small mem in
    let fw : w < 2 ^ 63 = omega (arith, track.word) in
    let nonzero : (t.total_count == 0) ≡ false = ground arith in
    let answer : highest_equivalent_value l (value_from_index l k) ≡ highest_equivalent_value l w =
      ap (λ (i : ℕ). highest_equivalent_value l (value_from_index l i)) (sym place)
      ∙ highest-value_from_index track.is_layout w fw in
    rw (nonzero, here)
      (
        w,
        mem,
        answer,
        omega (
          arith,
          ap (λ (q : ℕ). at_most q ws) answer,
          ap (λ (i : ℕ). before l (suc i) ws) place,
          enough,
          sums (suc k),
          le-at_most track w ws hw small,
        ),
        omega (
          arith,
          ap (λ (i : ℕ). before l i ws) place,
          short,
          sums k,
          below-le track w ws hw small,
        ),
      )
