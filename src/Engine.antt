-- ===== src/Engine.antt =====
-- include/policy/engine.hpp and src/engine.cpp: the feature word of a request, the scan of the
-- compiled rules, and the decision. The coarse clock is the argument `now`. `none` is a look-up in
-- one of the two sets that never ends; sets that `FlatSet.rebuild` makes never give it.
pub mod Gbr
pub mod Usage
pub mod Scan
pub mod Returns
pub mod Bits
pub mod Facts
pub mod Word
pub mod Fires
pub mod Answer
pub mod Grant
pub mod Decision
pub mod Order
pub mod Shadow
pub mod Features
mod Tests
use Gbr.{is_gbr_5qi}
use Usage.{usage_at_least_permille}
use real_time_policy_authori.Common.{
  ℕ, zero, suc, ◌+◌, ◌-◌, ◌*◌, ◌/◌, ◌%◌, ◌^◌, Bool, true, false, Option, none, some, List, [], ◌∷◌,
  not, ◌&&◌, ◌||◌, get_or, ◌==◌, ltb, leb, if◌then◌else◌, bit_and, bit_or,
}
use real_time_policy_authori.Common.Bits.{set_if}
use real_time_policy_authori.FlatSet
use real_time_policy_authori.FlatSet.{◌>>=◌}
use real_time_policy_authori.Rules.{Action, CompiledRule, PlanConfig, RuleSet, plan}
use real_time_policy_authori.Rules.Feat
use real_time_policy_authori.Rules.Window
use real_time_policy_authori.Rules.Window.{TimeWindow}
use real_time_policy_authori.Store.{SubscriberRecord, SubscriberStore, find}
use real_time_policy_authori.Wire.Messages.{
  PolicyRequest, PolicyDecision, magic_version, verdict_deny, reason_no_matching_rule,
  reason_malformed_request, flag_usage_from_request, req_flag_tethering_detected,
  req_flag_emergency, req_flag_usage_valid,
}

-- `(x & flag) != 0`
abbrev pub has : ℕ → ℕ → Bool
has x flag = not (bit_and x flag == 0)

-- the null pointer is `none`
unfoldable pub plan_bit_for : Option SubscriberRecord → ℕ
plan_bit_for none = 0
plan_bit_for (some rec) = if leb Feat.max_plans rec.plan_id then 0 else 2 ^ rec.plan_id

abbrev pub midnight : TimeWindow
midnight = record { start_minute = 0; end_minute = 0 }

-- the loops over the windows and the thresholds, with `left` rounds to go from index `i`
unfoldable pub window_bits : List TimeWindow → ℕ → ℕ → ℕ → ℕ → ℕ
window_bits windows minute zero i f = f
window_bits windows minute (suc left) i f =
    window_bits windows minute left (i + 1)
      (set_if (Window.contains (get_or windows i midnight) minute) (Feat.time_window_base + i) f)

unfoldable pub usage_bits : List ℕ → ℕ → ℕ → ℕ → ℕ → ℕ → ℕ
usage_bits thresholds usage quota zero i f = f
usage_bits thresholds usage quota (suc left) i f = usage_bits thresholds usage quota left (i + 1) (
    set_if (usage_at_least_permille usage quota (get_or thresholds i 0))
      (Feat.usage_threshold_base + i) f)

-- the bits that need no subscriber; `blocked` is the answer of the blocklist
unfoldable pub request_features : RuleSet → PolicyRequest → Bool → ℕ
request_features rs req blocked =
    let f = set_if (ltb req.rat_type Feat.rat_bits) (Feat.rat_base + req.rat_type) 0 in
    let f = set_if (ltb req.dnn_id Feat.dnn_bits) (Feat.dnn_base + req.dnn_id) f in
    let f = set_if (not (req.imei == 0)) Feat.imei_known f in
    let f = set_if blocked Feat.imei_blocked f in
    let f = set_if (has req.flags req_flag_tethering_detected) Feat.tethering_detected f in
    let f = set_if (has req.flags req_flag_emergency) Feat.emergency f in
    let f = set_if (is_gbr_5qi req.requested_5qi) Feat.requested_gbr f in
    window_bits rs.time_windows (req.local_minute % 1440) rs.time_window_count 0 f

unfoldable pub status_bit : ℕ → ℕ
status_bit status =
    if status == 0
    then Feat.status_active
    else if status == 1
    then Feat.status_suspended
    else (if status == 2 then Feat.status_barred else Feat.status_unknown)

abbrev pub quota_of : Option PlanConfig → ℕ
quota_of none = 0
quota_of (some p) = p.quota_bytes

abbrev pub tethering_of : Option PlanConfig → Bool
tethering_of none = false
tethering_of (some p) = has p.flags Feat.plan_tethering_allowed

unfoldable pub usage_of : PolicyRequest → Option SubscriberRecord → ℕ
usage_of req none = if has req.flags req_flag_usage_valid then req.bytes_used_period else 0
usage_of req (some rec) =
    if has req.flags req_flag_usage_valid then req.bytes_used_period else rec.bytes_used_period

-- the bits of a known subscriber, on top of `f`; `partner` is the answer of the partner table
unfoldable pub subscriber_features : RuleSet → PolicyRequest → SubscriberRecord → ℕ → Bool → ℕ → ℕ
subscriber_features rs req rec now partner f =
    let at_home = req.plmn == rec.home_plmn in
    let p = plan rs rec.plan_id in
    let usage = usage_of req (some rec) in
    let quota = quota_of p in
    let f = set_if true (status_bit rec.status) f in
    let f = set_if at_home Feat.home_plmn f in
    let f = set_if (not at_home) Feat.roaming f in
    let f = set_if (not at_home && partner) Feat.roaming_partner f in
    let f = set_if (has rec.flags (2 ^ 0)) Feat.roaming_allowed f in
    let f = set_if (tethering_of p || has rec.flags (2 ^ 1)) Feat.tethering_allowed f in
    let f = set_if (not (quota == 0) && leb quota usage) Feat.quota_exhausted f in
    let f = usage_bits rs.usage_thresholds_permille usage quota rs.usage_threshold_count 0 f in
    let expired = not (now == 0) && not (rec.period_reset_ts == 0) && leb rec.period_reset_ts now in
    set_if expired Feat.period_expired f

unfoldable pub unknown_features : ℕ → ℕ
unknown_features f = set_if true Feat.roaming (set_if true Feat.status_unknown f)

unfoldable pub build_features : RuleSet → PolicyRequest → Option SubscriberRecord → ℕ → Option ℕ
build_features rs req rec now =
    (if req.imei == 0 then some false else FlatSet.contains rs.imei_blocklist req.imei)
    >>= λ blocked.
        let f = request_features rs req blocked in
        elim rec [
          | none ↦ some (unknown_features f)
          | some r ↦
              (if req.plmn == r.home_plmn
                then some false
                else FlatSet.contains rs.roaming_partners req.plmn)
              >>= λ partner. some (subscriber_features rs req r now partner f)
        ]

-- one rule of the scan
unfoldable pub matches : CompiledRule → ℕ → ℕ → Bool
matches r f plan_bit =
    (bit_and f r.match_mask == r.match_value) && (r.plan_mask == 0 || has r.plan_mask plan_bit)

unfoldable pub first_hit : List CompiledRule → ℕ → ℕ → Option CompiledRule
first_hit [] f plan_bit = none
first_hit (r ∷ rules) f plan_bit =
    let rest = first_hit rules f plan_bit in if matches r f plan_bit then some r else rest

abbrev pub inherits : Action → ℕ → Option PlanConfig → Bool
inherits act field none = false
inherits act field (some p) = has act.inherit_mask field

abbrev pub from_plan : Bool → Option PlanConfig → (PlanConfig → ℕ) → ℕ → ℕ
from_plan true (some p) get own = get p
from_plan _ _ get own = own

-- the plan's remaining quota
abbrev pub remaining : ℕ → ℕ → ℕ
remaining quota usage = if ltb usage quota then quota - usage else 0

abbrev pub plan_of : RuleSet → Option SubscriberRecord → Option PlanConfig
plan_of rs none = none
plan_of rs (some rec) = plan rs rec.plan_id

-- the decision before a denial is stripped
unfoldable pub granted :
    RuleSet → PolicyRequest → Option SubscriberRecord → Option CompiledRule → PolicyDecision
granted rs req rec hit =
    let act : Action = elim hit [ none ↦ rs.default_action | some r ↦ r.action ] in
    let p = plan_of rs rec in
    let inh_qos = inherits act Feat.inherit_qos p in
    let inh_ambr = inherits act Feat.inherit_ambr p in
    let inh_quota = inherits act Feat.inherit_quota p in
    let inh_rg = inherits act Feat.inherit_rating_group p in
    record {
      magic_version = magic_version;
      seq = req.seq;
      client_ts_ns = req.client_ts_ns;
      quota_bytes =
          from_plan inh_quota p (λ q. remaining q.quota_bytes (usage_of req rec)) act.quota_bytes;
      ambr_ul_kbps = from_plan inh_ambr p (λ q. q.ambr_ul_kbps) act.ambr_ul_kbps;
      ambr_dl_kbps = from_plan inh_ambr p (λ q. q.ambr_dl_kbps) act.ambr_dl_kbps;
      rating_group = from_plan inh_rg p (λ q. q.rating_group) act.rating_group;
      quota_validity_s = from_plan inh_quota p (λ q. q.quota_validity_s) act.quota_validity_s;
      rule_id = elim hit [ none ↦ 0 | some r ↦ r.id ];
      policy_version = rs.version;
      verdict = act.verdict;
      reason = elim hit [ none ↦ reason_no_matching_rule | some r ↦ act.reason ];
      qos_5qi = from_plan inh_qos p (λ q. q.qos_5qi) act.qos_5qi;
      arp = from_plan inh_qos p (λ q. q.arp) act.arp;
      flags =
          if has req.flags req_flag_usage_valid
          then bit_or act.set_flags flag_usage_from_request
          else act.set_flags;
      redirect_id = act.redirect_id;
      reserved = 0;
      server_ts_ns = 0;
    }

unfoldable pub strip_denied : PolicyDecision → PolicyDecision
strip_denied d =
    if d.verdict == verdict_deny
    then record d {
      ambr_ul_kbps = 0;
      ambr_dl_kbps = 0;
      quota_bytes = 0;
      quota_validity_s = 0;
      qos_5qi = 0;
      arp = 0;
    }
    else d

unfoldable pub evaluate :
    RuleSet → PolicyRequest → Option SubscriberRecord → ℕ → Option PolicyDecision
evaluate rs req rec now = build_features rs req rec now >>= λ f.
    let hit = first_hit rs.rules f (plan_bit_for rec) in
    some (strip_denied (granted rs req rec hit))

-- the overload that looks the subscriber up
unfoldable pub evaluate_stored :
    RuleSet → SubscriberStore → PolicyRequest → ℕ → Option PolicyDecision
evaluate_stored rs store req now = find store req.imsi >>= λ rec. evaluate rs req rec now

unfoldable pub malformed_decision : ℕ → ℕ → ℕ → PolicyDecision
malformed_decision seq client_ts_ns policy_version = record {
  magic_version = magic_version;
  seq = seq;
  client_ts_ns = client_ts_ns;
  quota_bytes = 0;
  ambr_ul_kbps = 0;
  ambr_dl_kbps = 0;
  rating_group = 0;
  quota_validity_s = 0;
  rule_id = 0;
  policy_version = policy_version;
  verdict = verdict_deny;
  reason = reason_malformed_request;
  qos_5qi = 0;
  arp = 0;
  flags = 0;
  redirect_id = 0;
  reserved = 0;
  server_ts_ns = 0;
}
