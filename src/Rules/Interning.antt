-- ===== src/Rules/Interning.antt =====
-- The compiler shares one predicate bit among the conditions that name the same threshold or the
-- same window, and never moves a bit it has given out.
use real_time_policy_authori.Common.{
  ℕ, zero, suc, ◌+◌, ◌≤◌, ◌<◌, ◌≡◌, refl, subst, ◌∙◌, inl, inr, Bool, ◌&&◌, Option, none, some,
  arith, length, set, ◌==◌, if◌then◌else◌, leb, Bool-cases, Option-cases, get_or-set, length-set,
}
use mathlib.Core.Option.{some-injective}
use real_time_policy_authori.Rules.{RuleSet}
use real_time_policy_authori.Rules.Feat
use real_time_policy_authori.Rules.Conditions.{
  first_index, is_threshold, is_window, threshold_at, window_at, intern_usage_threshold,
  intern_time_window, no_window,
}

module _ (test : ℕ → Bool) where
  -- One entry more is looked at last.
  first_index-last :
      (left i : ℕ)
      → first_index test (left + 1) i ≡ elim (first_index test left i) [
        | some k ↦ some k
        | none ↦ if test (i + left) then some (i + left) else none
      ]
  unfolding first_index
  first_index-last zero i = ground arith
  first_index-last (suc left) i = ground (arith, first_index-last left (i + 1))

first_index_cong :
    (test test' : ℕ → Bool) (left i : ℕ)
    → ((k : ℕ) → k < i + left → test k ≡ test' k)
    → first_index test left i ≡ first_index test' left i
unfolding first_index
first_index_cong test test' zero i h = refl
first_index_cong test test' (suc left) i h =
    ground (
      arith,
      first_index_cong test test' left (i + 1) (λ k lt. h k (omega arith)),
      h i (omega arith),
    )

-- After the entry `count` is written, by which the test holds there and is the same below.
grown :
    (test test' : ℕ → Bool) (count : ℕ)
    → ((k : ℕ) → k < count → test k ≡ test' k)
    → first_index test' (count + 1) 0 ≡ elim (first_index test count 0) [
      | some k ↦ some k
      | none ↦ if test' count then some count else none
    ]
grown test test' count h = ground (
  arith,
  first_index_cong test test' count 0 (λ k lt. h k (omega arith)),
  first_index-last test' count 0,
)

-- the tables are arrays of eight
pub record HasRoom (rs : RuleSet) : Type 0 where
  pub thresholds : length rs.usage_thresholds_permille ≡ 8
  pub windows : length rs.time_windows ≡ 8
  pub threshold_count : rs.usage_threshold_count ≤ 8
  pub window_count : rs.time_window_count ≤ 8

-- Every index that the one rule set has for a threshold or a window is its index in the other.
pub record Extends (rs rs' : RuleSet) : Type 0 where
  pub thresholds : (p i : ℕ) → threshold_at rs p ≡ some i → threshold_at rs' p ≡ some i
  pub windows : (s e i : ℕ) → window_at rs s e ≡ some i → window_at rs' s e ≡ some i

pub Extends-refl : (rs : RuleSet) → Extends rs rs
Extends-refl rs = record { thresholds = λ p i h. h; windows = λ s e i h. h }

pub Extends-trans : {a b c : RuleSet} → Extends a b → Extends b c → Extends a c
Extends-trans x y = record {
  thresholds = λ p i h. y.thresholds p i (x.thresholds p i h);
  windows = λ s e i h. y.windows s e i (x.windows s e i h);
}

module _ {rs : RuleSet} (room : HasRoom rs) where
  abbrev with_threshold : ℕ → RuleSet
  with_threshold p = record rs {
    usage_threshold_count = rs.usage_threshold_count + 1;
    usage_thresholds_permille = set rs.usage_thresholds_permille rs.usage_threshold_count p;
  }

  abbrev with_window : ℕ → ℕ → RuleSet
  with_window start end = record rs {
    time_window_count = rs.time_window_count + 1;
    time_windows =
        set rs.time_windows rs.time_window_count
          (record { start_minute = start; end_minute = end });
  }

  threshold-grown :
      (p q : ℕ)
      → rs.usage_threshold_count < 8
      → threshold_at (with_threshold p) q ≡ elim (threshold_at rs q) [
        | some k ↦ some k
        | none ↦ if p == q then some rs.usage_threshold_count else none
      ]
  threshold-grown p q lt =
      let n = rs.usage_threshold_count in
      let ts = rs.usage_thresholds_permille in
      let read = λ (k : ℕ). get_or-set ts n k p 0 (omega (arith, room.thresholds)) in
      let old =
        grown (is_threshold rs q) (is_threshold (with_threshold p) q) n
          (λ k below. ground (arith, read k)) in
      ground (arith, old, read n)

  window-grown :
      (s e s' e' : ℕ)
      → rs.time_window_count < 8
      → window_at (with_window s e) s' e' ≡ elim (window_at rs s' e') [
        | some k ↦ some k
        | none ↦ if (s == s') && (e == e') then some rs.time_window_count else none
      ]
  window-grown s e s' e' lt =
      let n = rs.time_window_count in
      let ws = rs.time_windows in
      let read = λ (k : ℕ).
        get_or-set ws n k (record { start_minute = s; end_minute = e }) no_window
          (omega (arith, room.windows)) in
      let old =
        grown (is_window rs s' e') (is_window (with_window s e) s' e') n
          (λ k below. ground (arith, read k)) in
      ground (arith, old, read n)

  Extends-threshold : (p : ℕ) → rs.usage_threshold_count < 8 → Extends rs (with_threshold p)
  Extends-threshold p lt = record {
    thresholds = λ q i h. ground (arith, threshold-grown p q lt);
    windows = λ s e i h. h;
  }

  Extends-window : (s e : ℕ) → rs.time_window_count < 8 → Extends rs (with_window s e)
  Extends-window s e lt = record {
    thresholds = λ q i h. h;
    windows = λ s' e' i h. ground (arith, window-grown s e s' e' lt);
  }

  HasRoom-threshold : (p : ℕ) → rs.usage_threshold_count < 8 → HasRoom (with_threshold p)
  HasRoom-threshold p lt = record {
    thresholds =
        length-set rs.usage_thresholds_permille rs.usage_threshold_count p ∙ room.thresholds;
    windows = room.windows;
    threshold_count = omega arith;
    window_count = room.window_count;
  }

  HasRoom-window : (s e : ℕ) → rs.time_window_count < 8 → HasRoom (with_window s e)
  HasRoom-window s e lt = record {
    thresholds = room.thresholds;
    windows = length-set rs.time_windows rs.time_window_count _ ∙ room.windows;
    threshold_count = room.threshold_count;
    window_count = omega arith;
  }

-- What interning promises: `bit` stands for the entry that the search `at` finds, all else stays.
abbrev pub Interned : RuleSet → ℕ → (RuleSet → Option ℕ) → ℕ × RuleSet → Type 0
Interned rs base at (bit, rs') =
    (i : ℕ) × (bit ≡ base + i) × (at rs' ≡ some i) × Extends rs rs' × HasRoom rs'

module _ {rs : RuleSet} (room : HasRoom rs) where
  -- A threshold gets the bit of its entry, whether it is new or not, and nothing else moves.
  pub intern_usage_threshold_lem :
      (p : ℕ) (out : ℕ × RuleSet)
      → intern_usage_threshold rs p ≡ some out
      → Interned rs Feat.usage_threshold_base (λ t. threshold_at t p) out
  unfolding intern_usage_threshold
  intern_usage_threshold_lem p out h = elim (Option-cases (threshold_at rs p)) [
    | inr (i, at) ↦
        subst (Interned rs Feat.usage_threshold_base (λ t. threshold_at t p))
          (some-injective _ _ (rw (intern_usage_threshold, at) at h))
          (i, refl, at, Extends-refl rs, room)
    | inl new ↦ elim (Bool-cases (leb 8 rs.usage_threshold_count)) [
      | inl full ↦ cc (rw (intern_usage_threshold, new, full) at h)
      | inr free ↦
          let lt : rs.usage_threshold_count < 8 = ground arith in
          subst (Interned rs Feat.usage_threshold_base (λ t. threshold_at t p))
            (some-injective _ _ (rw (intern_usage_threshold, new, free) at h))
            (
              rs.usage_threshold_count,
              refl,
              ground (arith, threshold-grown room p p lt),
              Extends-threshold room p lt,
              HasRoom-threshold room p lt,
            )
    ]
  ]

  -- And so does a window.
  pub intern_time_window_lem :
      (s e : ℕ) (out : ℕ × RuleSet)
      → intern_time_window rs s e ≡ some out
      → Interned rs Feat.time_window_base (λ t. window_at t s e) out
  unfolding intern_time_window
  intern_time_window_lem s e out h = elim (Option-cases (window_at rs s e)) [
    | inr (i, at) ↦
        subst (Interned rs Feat.time_window_base (λ t. window_at t s e))
          (some-injective _ _ (rw (intern_time_window, at) at h))
          (i, refl, at, Extends-refl rs, room)
    | inl new ↦ elim (Bool-cases (leb 8 rs.time_window_count)) [
      | inl full ↦ cc (rw (intern_time_window, new, full) at h)
      | inr free ↦
          let lt : rs.time_window_count < 8 = ground arith in
          subst (Interned rs Feat.time_window_base (λ t. window_at t s e))
            (some-injective _ _ (rw (intern_time_window, new, free) at h))
            (
              rs.time_window_count,
              refl,
              ground (arith, window-grown room s e s e lt),
              Extends-window room s e lt,
              HasRoom-window room s e lt,
            )
    ]
  ]
