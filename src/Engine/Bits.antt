-- ===== src/Engine/Bits.antt =====
-- Which bits of the feature word are set.
use real_time_policy_authori.Common.{
  ℕ, zero, suc, ◌+◌, ◌-◌, ◌%◌, ◌^◌, ◌≡◌, inl, inr, sym, ap, Bool, not, ◌&&◌, ◌||◌, some, List,
  arith, get_or, ◌==◌, ltb, leb, Bool-cases,
}
use mathlib.Core.Bool.{or_assoc}
use real_time_policy_authori.Common.Bits.{test_bit, set_if, test_bit-set_if, test_bit-zero}
use real_time_policy_authori.Rules.{RuleSet, plan}
use real_time_policy_authori.Rules.Window
use real_time_policy_authori.Rules.Window.{TimeWindow}
use real_time_policy_authori.Store.{SubscriberRecord}
use real_time_policy_authori.Wire.Messages.{
  PolicyRequest, req_flag_emergency, req_flag_tethering_detected,
}
use real_time_policy_authori.Engine.Gbr.{is_gbr_5qi}
use real_time_policy_authori.Engine.Usage.{usage_at_least_permille}
use real_time_policy_authori.Engine.{
  has, midnight, window_bits, usage_bits, request_features, subscriber_features, unknown_features,
  status_bit, usage_of, quota_of, tethering_of,
}

-- a loop that sets bit `base + i` for `left` values of `i`
abbrev pub in_range : ℕ → ℕ → ℕ → Bool
in_range low left j = leb low j && ltb j (low + left)

pub test_bit-window_bits :
    (windows : List TimeWindow) (minute left i f j : ℕ)
    → test_bit (window_bits windows minute left i f) j ≡ (
        test_bit f j
        || in_range (40 + i) left j && Window.contains (get_or windows (j - 40) midnight) minute)
unfolding window_bits
test_bit-window_bits windows minute zero i f j = ground arith
test_bit-window_bits windows minute (suc left) i f j =
    let c = Window.contains (get_or windows i midnight) minute in
    let rest = test_bit-window_bits windows minute left (i + 1) (set_if c (40 + i) f) j in
    elim (Bool-cases (40 + i == j)) [
      | inl e ↦
          let here : i ≡ j - 40 = ground arith in
          let same : Window.contains (get_or windows (j - 40) midnight) minute ≡ c =
            ap (λ n. Window.contains (get_or windows n midnight) minute) (sym here) in
          ground (arith, rest, test_bit-set_if c (40 + i) f j, same)
      | inr e ↦ ground (arith, rest, test_bit-set_if c (40 + i) f j)
    ]

pub test_bit-usage_bits :
    (thresholds : List ℕ) (usage quota left i f j : ℕ)
    → test_bit (usage_bits thresholds usage quota left i f) j ≡ (
        test_bit f j
        || in_range (48 + i) left j
          && usage_at_least_permille usage quota (get_or thresholds (j - 48) 0))
unfolding usage_bits
test_bit-usage_bits thresholds usage quota zero i f j = ground arith
test_bit-usage_bits thresholds usage quota (suc left) i f j =
    let c = usage_at_least_permille usage quota (get_or thresholds i 0) in
    let rest = test_bit-usage_bits thresholds usage quota left (i + 1) (set_if c (48 + i) f) j in
    elim (Bool-cases (48 + i == j)) [
      | inl e ↦
          let here : i ≡ j - 48 = ground arith in
          let same : usage_at_least_permille usage quota (get_or thresholds (j - 48) 0) ≡ c =
            ap (λ n. usage_at_least_permille usage quota (get_or thresholds n 0)) (sym here) in
          ground (arith, rest, test_bit-set_if c (48 + i) f j, same)
      | inr e ↦ ground (arith, rest, test_bit-set_if c (48 + i) f j)
    ]

-- bit `j` of the part of the word that needs no subscriber
abbrev pub request_bit : RuleSet → PolicyRequest → Bool → ℕ → Bool
request_bit rs req blocked j =
    ltb req.rat_type 8 && 0 + req.rat_type == j
    || ltb req.dnn_id 16 && 8 + req.dnn_id == j
    || not (req.imei == 0) && 32 == j
    || blocked && 33 == j
    || has req.flags req_flag_tethering_detected && 34 == j
    || has req.flags req_flag_emergency && 36 == j
    || is_gbr_5qi req.requested_5qi && 39 == j
    || in_range 40 rs.time_window_count j
      && Window.contains (get_or rs.time_windows (j - 40) midnight) (req.local_minute % 1440)

pub test_bit-request_features :
    (rs : RuleSet) (req : PolicyRequest) (blocked : Bool) (j : ℕ)
    → test_bit (request_features rs req blocked) j ≡ request_bit rs req blocked j
unfolding request_features
test_bit-request_features rs req blocked j =
    simp (test_bit-window_bits, test_bit-set_if, test_bit-zero)

-- and of the part that a known subscriber adds
abbrev pub known_bit : RuleSet → PolicyRequest → SubscriberRecord → ℕ → Bool → ℕ → Bool
known_bit rs req rec now partner j =
    let at_home = req.plmn == rec.home_plmn in
    let p = plan rs rec.plan_id in
    let usage = usage_of req (some rec) in
    let quota = quota_of p in
    status_bit rec.status == j
    || at_home && 28 == j
    || not at_home && 29 == j
    || (not at_home && partner) && 30 == j
    || has rec.flags (2 ^ 0) && 31 == j
    || (tethering_of p || has rec.flags (2 ^ 1)) && 35 == j
    || (not (quota == 0) && leb quota usage) && 37 == j
    || in_range 48 rs.usage_threshold_count j
      && usage_at_least_permille usage quota (get_or rs.usage_thresholds_permille (j - 48) 0)
    || (not (now == 0) && not (rec.period_reset_ts == 0) && leb rec.period_reset_ts now) && 38 == j

pub test_bit-subscriber_features :
    (rs : RuleSet) (req : PolicyRequest) (rec : SubscriberRecord) (now : ℕ) (partner : Bool)
    (f j : ℕ)
    → test_bit (subscriber_features rs req rec now partner f) j
      ≡ (test_bit f j || known_bit rs req rec now partner j)
unfolding subscriber_features
test_bit-subscriber_features rs req rec now partner f j =
    simp (test_bit-usage_bits, test_bit-set_if, or_assoc)

pub test_bit-unknown_features :
    (f j : ℕ) → test_bit (unknown_features f) j ≡ (test_bit f j || 27 == j || 29 == j)
unfolding unknown_features
test_bit-unknown_features f j = simp test_bit-set_if
