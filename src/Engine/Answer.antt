-- ===== src/Engine/Answer.antt =====
-- What `evaluate` of src/engine.cpp owes to the request, the rule set, the subscriber and the rule that
-- fired, written down without the code's inheritance.
use real_time_policy_authori.Common.{ℕ, ◌-◌, ◌≡◌, ◌≢◌, Option, none, some, if◌then◌else◌, bit_or}
use real_time_policy_authori.Common.Bits.{test_bit}
use real_time_policy_authori.Rules.{RuleSet, CompiledRule, Action, PlanConfig, plan}
use real_time_policy_authori.Store.{SubscriberRecord}
use real_time_policy_authori.Wire.Messages.{
  PolicyRequest, PolicyDecision, magic_version, verdict_deny, reason_no_matching_rule,
  flag_usage_from_request,
}
use real_time_policy_authori.Engine.Facts.{usage_due}

-- What the header of a decision owes to the rule set and the rule that fired.
unfoldable pub IsAnswer : RuleSet → Option CompiledRule → PolicyDecision → Type 0
IsAnswer rs none d =
    (d.rule_id ≡ 0)
    × (d.verdict ≡ rs.default_action.verdict)
    × (d.reason ≡ reason_no_matching_rule)
    × (d.redirect_id ≡ rs.default_action.redirect_id)
IsAnswer rs (some r) d =
    (d.rule_id ≡ r.id)
    × (d.verdict ≡ r.action.verdict)
    × (d.reason ≡ r.action.reason)
    × (d.redirect_id ≡ r.action.redirect_id)

pub record IsEcho (rs : RuleSet) (req : PolicyRequest) (d : PolicyDecision) : Type 0 where
  pub magic : d.magic_version ≡ magic_version
  pub seq : d.seq ≡ req.seq
  pub stamp : d.client_ts_ns ≡ req.client_ts_ns
  pub version : d.policy_version ≡ rs.version
  pub reserved : d.reserved ≡ 0
  pub unstamped : d.server_ts_ns ≡ 0

-- the action that applies
abbrev pub action_of : RuleSet → Option CompiledRule → Action
action_of rs none = rs.default_action
action_of rs (some r) = r.action

-- no bit rate, no quota, no QoS class
abbrev pub GrantsNothing : PolicyDecision → Type 0
GrantsNothing d =
    (d.ambr_ul_kbps ≡ 0)
    × (d.ambr_dl_kbps ≡ 0)
    × (d.quota_bytes ≡ 0)
    × (d.quota_validity_s ≡ 0)
    × (d.qos_5qi ≡ 0)
    × (d.arp ≡ 0)

-- what the action says for itself
abbrev pub GrantsOwn : Action → PolicyDecision → Type 0
GrantsOwn act d =
    (d.quota_bytes ≡ act.quota_bytes)
    × (d.quota_validity_s ≡ act.quota_validity_s)
    × (d.ambr_ul_kbps ≡ act.ambr_ul_kbps)
    × (d.ambr_dl_kbps ≡ act.ambr_dl_kbps)
    × (d.qos_5qi ≡ act.qos_5qi)
    × (d.arp ≡ act.arp)

-- Each of the groups that the action leaves to the plan (bit 0 of its mask the QoS, 1 the bit rates, 2
-- the quota) is the plan's, where the quota is what the usage leaves of it; the others are the
-- action's own.
abbrev pub GrantsFrom : PlanConfig → ℕ → Action → PolicyDecision → Type 0
GrantsFrom p usage act d =
    (d.quota_bytes
      ≡ (if test_bit act.inherit_mask 2 then p.quota_bytes - usage else act.quota_bytes))
    × (d.quota_validity_s
        ≡ (if test_bit act.inherit_mask 2 then p.quota_validity_s else act.quota_validity_s))
    × (d.ambr_ul_kbps ≡ (if test_bit act.inherit_mask 1 then p.ambr_ul_kbps else act.ambr_ul_kbps))
    × (d.ambr_dl_kbps ≡ (if test_bit act.inherit_mask 1 then p.ambr_dl_kbps else act.ambr_dl_kbps))
    × (d.qos_5qi ≡ (if test_bit act.inherit_mask 0 then p.qos_5qi else act.qos_5qi))
    × (d.arp ≡ (if test_bit act.inherit_mask 0 then p.arp else act.arp))

-- the same for the rating group, bit 3 of the mask, which a denial keeps
abbrev pub rating_group_due : Action → Option PlanConfig → ℕ
rating_group_due act none = act.rating_group
rating_group_due act (some p) =
    if test_bit act.inherit_mask 3 then p.rating_group else act.rating_group

abbrev pub plan_due : RuleSet → Option SubscriberRecord → Option PlanConfig
plan_due rs none = none
plan_due rs (some r) = plan rs r.plan_id

abbrev pub usage_counted : PolicyRequest → Option SubscriberRecord → ℕ
usage_counted req none = 0
usage_counted req (some r) = usage_due req r

abbrev pub GrantsDue : Option PlanConfig → ℕ → Action → PolicyDecision → Type 0
GrantsDue none usage act d = GrantsOwn act d
GrantsDue (some p) usage act d = GrantsFrom p usage act d

-- What a decision by the action `act` authorises for the subscriber: nothing where it denies, else
-- the action's values or the plan's; and its rating group and flags in both cases.
pub record IsGrant (rs : RuleSet) (req : PolicyRequest) (rec : Option SubscriberRecord)
    (act : Action) (d : PolicyDecision) : Type 0 where
  pub denied : d.verdict ≡ verdict_deny → GrantsNothing d
  pub allowed : d.verdict ≢ verdict_deny → GrantsDue (plan_due rs rec) (usage_counted req rec) act d
  pub rated : d.rating_group ≡ rating_group_due act (plan_due rs rec)
  pub flagged : d.flags ≡ (
      if test_bit req.flags 2 then bit_or act.set_flags flag_usage_from_request else act.set_flags)
