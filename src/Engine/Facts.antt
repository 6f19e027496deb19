-- ===== src/Engine/Facts.antt =====
-- What the feature word of `build_features` in src/engine.cpp has to say of a request and its
-- subscriber, written down from the record, the request and the rule set.
use real_time_policy_authori.Common.{
  ℕ, ◌+◌, ◌-◌, ◌*◌, ◌%◌, ◌^◌, ◌≤◌, ◌<◌, ◌≡◌, ◌≢◌, Bool, true, false, not, ◌&&◌, Option, none, some,
  List, ◌==◌, ltb, if◌then◌else◌, memb,
}
use real_time_policy_authori.Common.Bits.{test_bit}
use real_time_policy_authori.Rules.{RuleSet, PlanConfig, plan}
use real_time_policy_authori.Rules.Window.{TimeWindow}
use real_time_policy_authori.Store.{SubscriberRecord}
use real_time_policy_authori.Wire.Messages.{PolicyRequest}

abbrev pub as_number : Bool → ℕ
as_number b = if b then 1 else 0

-- the four status bits
abbrev pub status_count : ℕ → ℕ
status_count w =
    as_number (test_bit w 24)
    + as_number (test_bit w 25)
    + as_number (test_bit w 26)
    + as_number (test_bit w 27)

-- The bits on the subscriber's status and whereabouts, for an unknown and for a known subscriber.
abbrev pub IsPlaced : List ℕ → PolicyRequest → Option SubscriberRecord → ℕ → Type 0
IsPlaced partners req none f =
    (test_bit f 24 ≡ false)
    × (test_bit f 25 ≡ false)
    × (test_bit f 26 ≡ false)
    × (test_bit f 27 ≡ true)
    × (test_bit f 28 ≡ false)
    × (test_bit f 29 ≡ true)
    × (test_bit f 30 ≡ false)
IsPlaced partners req (some r) f =
    (test_bit f 24 ≡ (r.status == 0))
    × (test_bit f 25 ≡ (r.status == 1))
    × (test_bit f 26 ≡ (r.status == 2))
    × (test_bit f 27 ≡ ltb 2 r.status)
    × (test_bit f 28 ≡ (req.plmn == r.home_plmn))
    × (test_bit f 29 ≡ not (req.plmn == r.home_plmn))
    × (test_bit f 30
        ≡ (not (req.plmn == r.home_plmn) && (not (req.plmn == 0) && memb req.plmn partners)))

-- The local minute `m` lies in the window: the minutes since it opened, on a clock that wraps at
-- midnight, are fewer than its length.
abbrev pub IsOpen : TimeWindow → ℕ → Type 0
IsOpen w m = (m + 1440 - w.start_minute) % 1440 < (w.end_minute + 1440 - w.start_minute) % 1440

-- the usage that counts: the request's where bit 2 of its flags is set, else the record's
abbrev pub usage_due : PolicyRequest → SubscriberRecord → ℕ
usage_due req r = if test_bit req.flags 2 then req.bytes_used_period else r.bytes_used_period

-- The subscriber is known and has a plan with a quota, of which the usage is at least `permille`
-- thousandths.
abbrev pub HasUsed : RuleSet → PolicyRequest → Option SubscriberRecord → ℕ → Type 0
HasUsed rs req none permille = ⊥
HasUsed rs req (some r) permille =
    (p : PlanConfig) × (plan rs r.plan_id ≡ some p)
    × (p.quota_bytes ≢ 0)
    × (p.quota_bytes * permille ≤ usage_due req r * 1000)

-- the counters and the quotas are 64-bit numbers
abbrev pub AreWords : RuleSet → PolicyRequest → Option SubscriberRecord → Type 0
AreWords rs req none = Unit
AreWords rs req (some r) =
    (req.bytes_used_period < 2 ^ 64)
    × (r.bytes_used_period < 2 ^ 64)
    × ((p : PlanConfig) → plan rs r.plan_id ≡ some p → p.quota_bytes < 2 ^ 64)
