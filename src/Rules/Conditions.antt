-- ===== src/Rules/Conditions.antt =====
-- src/rules.cpp: the part of the compiler that turns the conditions of a rule into (mask, value)
-- pairs. A `Condition` is a key of the `when` mapping with its value, once its names (statuses, access
-- types, DNNs) are looked up, which `Compiler/When.antt` does. An error is `none`.
use real_time_policy_authori.Common.{
  ℕ, zero, suc, ◌+◌, ◌*◌, ◌^◌, Bool, ◌&&◌, Option, none, some, List, [], ◌∷◌, ◌++◌, length, get_or,
  set, leb, ltb, ◌==◌, if◌then◌else◌, bit_or,
}
use real_time_policy_authori.Common.Bits.{set_if}
use real_time_policy_authori.FlatSet.{◌>>=◌}
use real_time_policy_authori.Rules.{RuleSet}
use real_time_policy_authori.Rules.Feat
use real_time_policy_authori.Rules.Window.{TimeWindow}

pub data Condition : Type 0 where
  -- one of the keys of `kBoolConds`
  flag : (bit : ℕ) (want : Bool) → Condition
  -- `status`, `rat`, `dnn`
  one_of : (bits : List ℕ) → Condition
  -- `not_rat`, `not_dnn`
  none_of : (bits : List ℕ) → Condition
  -- `usage_above`, `usage_below`
  usage : (permille : ℕ) (above : Bool) → Condition
  -- `time_between`, `not_time_between`
  time : (start_minute end_minute : ℕ) (inside : Bool) → Condition

-- the (mask, value) pairs of a rule
abbrev pub Pairs : Type 0
Pairs = List (ℕ × ℕ)

unfoldable pub add_bit : Pairs → ℕ → Bool → Pairs
add_bit [] bit want = []
add_bit ((mask, value) ∷ ms) bit want =
    (bit_or mask (2 ^ bit), set_if want bit value) ∷ add_bit ms bit want

-- the inner loop of `add_one_of`
unfoldable pub one_each : ℕ → ℕ → List ℕ → Pairs
one_each mask value [] = []
one_each mask value (b ∷ bits) =
    (bit_or mask (2 ^ b), bit_or value (2 ^ b)) ∷ one_each mask value bits

-- and the outer one
unfoldable pub expand : Pairs → List ℕ → Pairs
expand [] bits = []
expand ((mask, value) ∷ ms) bits = one_each mask value bits ++ expand ms bits

abbrev pub max_expansion_per_rule : ℕ
max_expansion_per_rule = 64

unfoldable pub add_one_of : Pairs → List ℕ → Option Pairs
add_one_of ms [] = some ms
add_one_of ms (b ∷ bits) =
    if ltb max_expansion_per_rule (length ms * length (b ∷ bits))
    then none
    else some (expand ms (b ∷ bits))

-- `mask |= feat::bit(b)` for every `b`
unfoldable pub or_all : ℕ → List ℕ → ℕ
or_all mask [] = mask
or_all mask (b ∷ bits) = or_all (bit_or mask (2 ^ b)) bits

unfoldable pub add_none_of : Pairs → List ℕ → Pairs
add_none_of [] bits = []
add_none_of ((mask, value) ∷ ms) bits = (or_all mask bits, value) ∷ add_none_of ms bits

-- a search from index `i`, with `left` entries to go
unfoldable pub first_index : (ℕ → Bool) → ℕ → ℕ → Option ℕ
first_index test zero i = none
first_index test (suc left) i =
    let rest = first_index test left (i + 1) in if test i then some i else rest

abbrev pub is_threshold : RuleSet → ℕ → ℕ → Bool
is_threshold rs permille i = get_or rs.usage_thresholds_permille i 0 == permille

abbrev pub no_window : TimeWindow
no_window = record { start_minute = 0; end_minute = 0 }

abbrev pub is_window : RuleSet → ℕ → ℕ → ℕ → Bool
is_window rs start end i =
    ((get_or rs.time_windows i no_window).start_minute == start)
    && ((get_or rs.time_windows i no_window).end_minute == end)

abbrev pub threshold_at : RuleSet → ℕ → Option ℕ
threshold_at rs permille = first_index (is_threshold rs permille) rs.usage_threshold_count 0

abbrev pub window_at : RuleSet → ℕ → ℕ → Option ℕ
window_at rs start end = first_index (is_window rs start end) rs.time_window_count 0

unfoldable pub intern_usage_threshold : RuleSet → ℕ → Option (ℕ × RuleSet)
intern_usage_threshold rs permille = elim (threshold_at rs permille) [
  | some i ↦ some (Feat.usage_threshold_base + i, rs)
  | none ↦
      if leb Feat.max_usage_thresholds rs.usage_threshold_count
      then none
      else some (
        Feat.usage_threshold_base + rs.usage_threshold_count,
        record rs {
          usage_threshold_count = rs.usage_threshold_count + 1;
          usage_thresholds_permille =
              set rs.usage_thresholds_permille rs.usage_threshold_count permille;
        },
      )
]

unfoldable pub intern_time_window : RuleSet → ℕ → ℕ → Option (ℕ × RuleSet)
intern_time_window rs start end = elim (window_at rs start end) [
  | some i ↦ some (Feat.time_window_base + i, rs)
  | none ↦
      if leb Feat.max_time_windows rs.time_window_count
      then none
      else some (
        Feat.time_window_base + rs.time_window_count,
        record rs {
          time_window_count = rs.time_window_count + 1;
          time_windows =
              set rs.time_windows rs.time_window_count
                (record { start_minute = start; end_minute = end });
        },
      )
]

-- one round of the loop of `compile_when`
unfoldable pub compile_condition : RuleSet → Pairs → Condition → Option (RuleSet × Pairs)
compile_condition rs ms (flag bit want) = some (rs, add_bit ms bit want)
compile_condition rs ms (one_of bits) = add_one_of ms bits >>= λ ms'. some (rs, ms')
compile_condition rs ms (none_of bits) = some (rs, add_none_of ms bits)
compile_condition rs ms (usage permille above) =
    intern_usage_threshold rs permille >>= λ (bit, rs'). some (rs', add_bit ms bit above)
compile_condition rs ms (time start end inside) =
    intern_time_window rs start end >>= λ (bit, rs'). some (rs', add_bit ms bit inside)

unfoldable pub compile_when : RuleSet → Pairs → List Condition → Option (RuleSet × Pairs)
compile_when rs ms [] = some (rs, ms)
compile_when rs ms (c ∷ conditions) =
    compile_condition rs ms c >>= λ (rs', ms'). compile_when rs' ms' conditions
