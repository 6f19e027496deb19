-- ===== src/Engine/Features.antt =====
-- What the groups of bits of a feature word say of the request and the subscriber.
use real_time_policy_authori.Common.{
  ℕ, ◌+◌, ◌%◌, ◌^◌, ◌<◌, ◌≡◌, ◌↔◌, true, Option, some, List, arith, get_or,
}
use real_time_policy_authori.Common.Bits.{test_bit}
use real_time_policy_authori.Rules.{RuleSet}
use real_time_policy_authori.Rules.Window
use real_time_policy_authori.Rules.Window.{TimeWindow}
use real_time_policy_authori.Store.{SubscriberRecord}
use real_time_policy_authori.Wire.Messages.{PolicyRequest}
use real_time_policy_authori.Engine.{midnight, build_features}
use real_time_policy_authori.Engine.Returns.{IsReady, word, build_features-word}
use real_time_policy_authori.Engine.Word.{word_window, word_threshold}
use real_time_policy_authori.Engine.Facts.{IsOpen, HasUsed, AreWords}

module _ {blocked partners : List ℕ} {rs : RuleSet} (ready : IsReady blocked partners rs)
    (req : PolicyRequest) (now : ℕ) where
  -- Over a rule set whose sets were built by `rebuild` and that has at most eight windows and
  -- thresholds, for every subscriber, known or not, and each i below 8 whose entry in the table of
  -- windows has its ends within the day: the feature word is built, and its bit 40 + i is set
  -- exactly if the rule set has a window i and the local minute of the request lies in it, which
  -- is to say that the minutes since it opened are fewer than its length.
  pub build_features-window :
      (rec : Option SubscriberRecord) (i : ℕ)
      → i < 8
      → (get_or rs.time_windows i midnight).start_minute < 1440
      → (get_or rs.time_windows i midnight).end_minute < 1440
      → (f : ℕ) × (build_features rs req rec now ≡ some f)
        × ((test_bit f (40 + i) ≡ true) ↔ (
            (i < rs.time_window_count)
            × IsOpen (get_or rs.time_windows i midnight) (req.local_minute % 1440)))
  build_features-window rec i h hs he =
      let w = get_or rs.time_windows i midnight in
      let in_terms = Window.contains-elapsed w (req.local_minute % 1440) hs he (omega arith) in
      (
        word blocked partners rs req rec now,
        build_features-word ready req now rec,
        rw (word_window ready req now rec i h) (ground arith),
      )

  -- Over a rule set whose sets were built by `rebuild` and that has at most eight windows and
  -- thresholds, for every subscriber, known or not, and every i, with 64-bit counters and quotas
  -- and a 32-bit threshold: the feature word is built, and its bit 48 + i is set exactly if the rule
  -- set has a threshold i, the subscriber is known and has a plan with a quota other than 0, and
  -- the usage, the request's where bit 2 of its flags says it is valid and else the record's, is at
  -- least that many thousandths of the quota.
  pub build_features-threshold :
      (rec : Option SubscriberRecord) (i : ℕ)
      → AreWords rs req rec
      → get_or rs.usage_thresholds_permille i 0 < 2 ^ 32
      → (f : ℕ) × (build_features rs req rec now ≡ some f)
        × ((test_bit f (48 + i) ≡ true) ↔ (
            (i < rs.usage_threshold_count)
            × HasUsed rs req rec (get_or rs.usage_thresholds_permille i 0)))
  build_features-threshold rec i words small = (
    word blocked partners rs req rec now,
    build_features-word ready req now rec,
    word_threshold ready req now rec i words small,
  )
