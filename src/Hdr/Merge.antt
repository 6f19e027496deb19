-- ===== src/Hdr/Merge.antt =====
-- `add`, which folds the histograms of the workers into one.
use real_time_policy_authori.Common.{
  ℕ, zero, suc, ◌+◌, ◌*◌, min, max, ◌≡◌, refl, sym, ap, subst, ◌∙◌, arith, true, false, not, ◌||◌,
  List, [], ◌∷◌, ◌++◌, length, get_or, ◌==◌, if◌then◌else◌, length-append,
}
use real_time_policy_authori.Hdr.{ℤ, Layout, HdrHistogram, add, add_counts}
use real_time_policy_authori.Hdr.History.{
  kept, overflows, occurrences, greatest, least, occurrences_append, greatest_append, least_append,
  kept_append, negatives_append, overflows_append, greatest_none,
}
use real_time_policy_authori.Hdr.Counts.{Counts, Tracks}

length-add_counts : (xs ys : List ℕ) → length (add_counts xs ys) ≡ length xs
unfolding add_counts
length-add_counts [] ys = refl
length-add_counts (x ∷ xs) [] = refl
length-add_counts (x ∷ xs) (y ∷ ys) = ap suc (length-add_counts xs ys)

get_or-add_counts :
    (xs ys : List ℕ) (i : ℕ)
    → length xs ≡ length ys
    → get_or (add_counts xs ys) i 0 ≡ get_or xs i 0 + get_or ys i 0
unfolding add_counts
get_or-add_counts [] [] i e = refl
get_or-add_counts [] (y ∷ ys) i e = absurd (omega arith)
get_or-add_counts (x ∷ xs) [] i e = absurd (omega arith)
get_or-add_counts (x ∷ xs) (y ∷ ys) zero e = refl
get_or-add_counts (x ∷ xs) (y ∷ ys) (suc i) e = get_or-add_counts xs ys i (omega arith)

combined_least :
    (xs ys : List ℕ)
    → least (xs ++ ys) ≡ (
        if length ys == 0
        then least xs
        else (if length xs == 0 then least ys else min (least xs) (least ys)))
combined_least xs [] = ap least (append_nil xs)
  where
    append_nil : (xs : List ℕ) → xs ++ [] ≡ xs
    append_nil [] = refl
    append_nil (x ∷ xs) = ap (◌∷◌ x) (append_nil xs)
combined_least xs (y ∷ ys) = ground (arith, least_append xs y ys)

combined_greatest :
    (xs ys : List ℕ)
    → greatest (xs ++ ys) ≡ (
        if length ys == 0
        then greatest xs
        else (if length xs == 0 then greatest ys else max (greatest xs) (greatest ys)))
combined_greatest xs ys = ground (arith, greatest_append xs ys, greatest_none xs, greatest_none ys)

-- Histograms with one layout are always merged, and the result is the one of both histories.
pub add-Tracks :
    (l : Layout) {t other : HdrHistogram} {xs ys : List ℤ}
    → t.layout ≡ l
    → other.layout ≡ l
    → Tracks t xs
    → Tracks other ys
    → ((add t other).0 ≡ true) × Tracks (add t other).1 (xs ++ ys)
unfolding add
add-Tracks l {t} {other} {xs} {ys} e e' h k =
    let same_size : length t.counts ≡ length other.counts =
      h.counts.is_sized.sized
      ∙ ap (λ (m : Layout). (m.bucket_count + 1) * m.sub_bucket_half_count) (e ∙ sym e')
      ∙ sym k.counts.is_sized.sized in
    let unit : t.layout.unit_magnitude ≡ other.layout.unit_magnitude =
      ap (λ (m : Layout). m.unit_magnitude) (e ∙ sym e') in
    let columns : t.layout.sub_bucket_count ≡ other.layout.sub_bucket_count =
      ap (λ (m : Layout). m.sub_bucket_count) (e ∙ sym e') in
    let accepted = guard_false _ _ _ _ _ _ same_size unit columns in
    let highest : t.layout.highest ≡ other.layout.highest =
      ap (λ (m : Layout). m.highest) (e ∙ sym e') in
    let there : kept other.layout.highest ys ≡ kept t.layout.highest ys =
      ap (λ (n : ℕ). kept n ys) (sym highest) in
    let both = kept_append t.layout.highest xs ys in
    let other_counts = subst (Counts other) there k.counts in
    rw accepted (
      refl,
      record {
        counts = subst (Counts _) (sym both) record {
          is_sized = record {
            trackable = h.counts.is_sized.trackable;
            sized = length-add_counts t.counts other.counts ∙ h.counts.is_sized.sized;
          };
          total = omega (
            arith,
            h.counts.total,
            other_counts.total,
            length-append (kept t.layout.highest xs) (kept t.layout.highest ys),
          );
          counted = λ i.
              get_or-add_counts t.counts other.counts i same_size
              ∙ omega (
                arith,
                h.counts.counted i,
                other_counts.counted i,
                ap (λ (m : Layout). occurrences m i (kept t.layout.highest ys)) (e ∙ sym e'),
                occurrences_append t.layout i (kept t.layout.highest xs) (kept t.layout.highest ys),
              );
          low =
              merged h.counts.low other_counts.low h.counts.total other_counts.total min
              ∙ sym (combined_least (kept t.layout.highest xs) (kept t.layout.highest ys));
          high =
              merged h.counts.high other_counts.high h.counts.total other_counts.total max
              ∙ sym (combined_greatest (kept t.layout.highest xs) (kept t.layout.highest ys));
        };
        over = omega (
          arith,
          h.over,
          k.over,
          overflows_append t.layout.highest xs ys,
          ap (λ (n : ℕ). overflows n ys) highest,
        );
        negative = omega (arith, h.negative, k.negative, negatives_append xs ys);
      },
    )
  where
    guard_false :
        (a b c d x y : ℕ)
        → a ≡ b
        → c ≡ d
        → x ≡ y
        → (not (a == b) || not (c == d) || not (x == y)) ≡ false
    guard_false a b c d x y p q r = ground arith

    merged :
        {a b a' b' m n m' n' : ℕ}
        → a ≡ a'
        → b ≡ b'
        → m ≡ m'
        → n ≡ n'
        → (f : ℕ → ℕ → ℕ)
        → (if n == 0 then a else (if m == 0 then b else f a b))
          ≡ (if n' == 0 then a' else (if m' == 0 then b' else f a' b'))
    merged p q r s f = rw (p, q, r, s) refl
