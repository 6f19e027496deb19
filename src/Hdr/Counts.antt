-- ===== src/Hdr/Counts.antt =====
-- What the counters stand for: every operation keeps them true to the history.
use real_time_policy_authori.Common.{
  ℕ, zero, suc, ◌+◌, ◌^◌, min, max, ◌<◌, ◌≤◌, ◌≡◌, refl, sym, ap, subst, ◌∙◌, arith, ◌||◌, List, [],
  ◌∷◌, ◌++◌, length, get_or, replicate, ◌==◌, ltb, if◌then◌else◌, length-set, get_or-set,
  get_or-replicate, length-replicate, length-append, Bool-cases, inl, inr,
}
use real_time_policy_authori.Hdr.{
  ℤ, pos, negsuc, HdrHistogram, counts_index_for, note, record_value, record_n, reset, create,
}
use real_time_policy_authori.Hdr.History.{
  kept, negatives, overflows, occurrences, greatest, least, occurrences-replicate,
  greatest-replicate, greatest_none, least-replicate, kept-replicate, kept-replicate_negsuc,
  negatives-replicate, negatives-replicate_negsuc, overflows-replicate, overflows-replicate_negsuc,
}
use real_time_policy_authori.Hdr.Capacity.{IsSized, create-IsSized, counts_index_lt}

-- The table counts these values and no others.
pub record Counts (t : HdrHistogram) (ws : List ℕ) : Type 0 where
  pub is_sized : IsSized t
  pub total : t.total_count ≡ length ws
  pub counted : (i : ℕ) → get_or t.counts i 0 ≡ occurrences t.layout i ws
  pub low : t.min_value ≡ least ws
  pub high : t.max_value ≡ greatest ws

-- the counters that `Counts` does not read may differ
abbrev same :
    {t : HdrHistogram} {ws : List ℕ} (o n : ℕ)
    → Counts t ws
    → Counts (record t { overflow_count = o; negative_count = n }) ws
same o n h = record {
  is_sized = record { trackable = h.is_sized.trackable; sized = h.is_sized.sized };
  total = h.total;
  counted = h.counted;
  low = h.low;
  high = h.high;
}

-- The histogram is the result of this history.
pub record Tracks (t : HdrHistogram) (vs : List ℤ) : Type 0 where
  pub counts : Counts t (kept t.layout.highest vs)
  pub over : t.overflow_count ≡ overflows t.layout.highest vs
  pub negative : t.negative_count ≡ negatives vs

pub create-Tracks :
    (lowest highest figures : ℕ)
    → lowest < 2 ^ 40
    → highest < 2 ^ 62
    → Tracks (create lowest highest figures) []
unfolding create kept negatives overflows occurrences greatest least
create-Tracks lowest highest figures small word = record {
  counts = record {
    is_sized = create-IsSized lowest highest figures small word;
    total = refl;
    counted = λ i. get_or-replicate _ i 0;
    low = refl;
    high = refl;
  };
  over = refl;
  negative = refl;
}

pub reset-Tracks : {t : HdrHistogram} {vs : List ℤ} → Tracks t vs → Tracks (reset t) []
unfolding reset kept negatives overflows occurrences greatest least
reset-Tracks {t} h = record {
  counts = record {
    is_sized = record {
      trackable = h.counts.is_sized.trackable;
      sized = length-replicate (length t.counts) 0 ∙ h.counts.is_sized.sized;
    };
    total = refl;
    counted = λ i. get_or-replicate (length t.counts) i 0;
    low = refl;
    high = refl;
  };
  over = refl;
  negative = refl;
}

-- A value in range, noted `n` times.
pub note-Counts :
    {t : HdrHistogram} {ws : List ℕ}
    → Counts t ws
    → (v n : ℕ) → v ≤ t.layout.highest
    → Counts (note t v (suc n)) (replicate (suc n) v ++ ws)
unfolding note
note-Counts {t} {ws} h v n le =
    let i = counts_index_for t.layout v in
    let inside : i < length t.counts =
      omega (arith, counts_index_lt h.is_sized.trackable v le, h.is_sized.sized) in
    record {
      is_sized = record {
        trackable = h.is_sized.trackable;
        sized = length-set t.counts i _ ∙ h.is_sized.sized;
      };
      total =
          omega
            (arith, h.total, length-append (replicate (suc n) v) ws, length-replicate (suc n) v);
      counted = λ j.
          get_or-set t.counts i j (get_or t.counts i 0 + suc n) 0 inside
          ∙ place j i (suc n) (get_or t.counts i 0) (get_or t.counts j 0)
              (occurrences t.layout j ws) (h.counted j) (λ e. ap (λ (k : ℕ). get_or t.counts k 0) e)
          ∙ sym (occurrences-replicate t.layout j (suc n) v ws);
      low =
          smaller v t.min_value t.total_count n (length ws) h.total
          ∙ ap (λ (m : ℕ). if length ws == 0 then v else min v m) h.low
          ∙ sym (least-replicate n v ws);
      high =
          larger v t.max_value t.total_count n (λ e. h.high ∙ greatest_none ws (sym h.total ∙ e))
          ∙ ap (max v) h.high
          ∙ sym (greatest-replicate n v ws);
    }
  where
    place :
        (j i n x y o : ℕ)
        → y ≡ o
        → (j ≡ i → y ≡ x)
        → (if j == i then x + n else y) ≡ (if j == i then n + o else o)
    place j i n x y o e f = ground (arith, f)

    smaller :
        (v m t n len : ℕ)
        → t ≡ len
        → (if ltb v m || t + suc n == suc n then v else m) ≡ (if len == 0 then v else min v m)
    smaller v m t n len e = ground arith

    larger :
        (v m t n : ℕ) → (t ≡ 0 → m ≡ 0) → (if ltb m v || t + suc n == suc n then v else m) ≡ max v m
    larger v m t n f = ground (arith, f)

-- After `record_n` of a value and a count that is not negative, the histogram is the result of the
-- history with the value added that many times.
pub record_n-Tracks :
    {t : HdrHistogram} {vs : List ℤ}
    → Tracks t vs
    → (v : ℤ) (n : ℕ) → Tracks (record_n t v (pos n)) (replicate n v ++ vs)
unfolding record_n
record_n-Tracks h v zero = h
record_n-Tracks {t} {vs} h (negsuc k) (suc n) = record {
  counts =
      subst (Counts _) (sym (kept-replicate_negsuc t.layout.highest (suc n) k vs))
        (same _ _ h.counts);
  over = h.over ∙ sym (overflows-replicate_negsuc t.layout.highest (suc n) k vs);
  negative = omega (arith, h.negative, negatives-replicate_negsuc (suc n) k vs);
}
record_n-Tracks {t} {vs} h (pos v) (suc n) = elim (Bool-cases (ltb t.layout.highest v)) [
  | inl above ↦
      let cut : min v t.layout.highest ≡ t.layout.highest = ground arith in
      rw above record {
        counts =
            subst (Counts _)
              (ap (λ (w : ℕ). replicate (suc n) w ++ kept t.layout.highest vs) (sym cut)
                ∙ sym (kept-replicate t.layout.highest (suc n) v vs))
              (note-Counts (same _ _ h.counts) t.layout.highest n (omega arith));
        over = ground (arith, h.over, overflows-replicate t.layout.highest (suc n) v vs);
        negative = h.negative ∙ sym (negatives-replicate (suc n) v vs);
      }
  | inr inside ↦
      let cut : min v t.layout.highest ≡ v = ground arith in
      rw inside record {
        counts =
            subst (Counts _)
              (ap (λ (w : ℕ). replicate (suc n) w ++ kept t.layout.highest vs) (sym cut)
                ∙ sym (kept-replicate t.layout.highest (suc n) v vs))
              (note-Counts h.counts v n (ground arith));
        over = ground (arith, h.over, overflows-replicate t.layout.highest (suc n) v vs);
        negative = h.negative ∙ sym (negatives-replicate (suc n) v vs);
      }
]

-- `record` is `record_n` for one value.
pub record_value-record_n : (t : HdrHistogram) (v : ℤ) → record_value t v ≡ record_n t v (pos 1)
unfolding record_value record_n
record_value-record_n t (negsuc k) = refl
record_value-record_n t (pos v) = refl

-- `record` counts one more value of the history.
pub record_value-Tracks :
    {t : HdrHistogram} {vs : List ℤ} → Tracks t vs → (v : ℤ) → Tracks (record_value t v) (v ∷ vs)
record_value-Tracks {t} {vs} h v =
    subst (λ (u : HdrHistogram). Tracks u (v ∷ vs)) (sym (record_value-record_n t v))
      (record_n-Tracks h v 1)
