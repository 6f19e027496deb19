-- ===== src/Engine/Grant.antt =====
-- The decision that src/engine.cpp fills in is the answer.
use real_time_policy_authori.Common.{
  ℕ, ◌-◌, ◌^◌, ◌≡◌, ◌≢◌, inl, inr, refl, Option, none, some, arith, Option-cases, Bool-cases, ap,
  subst, sym, ◌∙◌, if◌then◌else◌, bit_or,
}
use real_time_policy_authori.Common.Bits.{test_bit}
use real_time_policy_authori.Rules.{RuleSet, CompiledRule, Action, PlanConfig, plan}
use real_time_policy_authori.Store.{SubscriberRecord}
use real_time_policy_authori.Wire.Messages.{
  PolicyRequest, PolicyDecision, verdict_deny, flag_usage_from_request,
}
use real_time_policy_authori.Engine.{has, usage_of, granted, strip_denied, remaining, from_plan}
use real_time_policy_authori.Engine.Facts.{usage_due}
use real_time_policy_authori.Engine.Word.{usage_of-due}
use real_time_policy_authori.Engine.Fires.{has-bit}
use real_time_policy_authori.Engine.Answer.{
  IsAnswer, IsEcho, action_of, GrantsNothing, GrantsOwn, GrantsFrom, rating_group_due, plan_due,
  usage_counted, GrantsDue, IsGrant,
}

pub answer_lem :
    (rs : RuleSet) (req : PolicyRequest) (rec : Option SubscriberRecord) (hit : Option CompiledRule)
    → IsAnswer rs hit (strip_denied (granted rs req rec hit))
unfolding IsAnswer granted strip_denied
answer_lem rs req rec none = ground arith
answer_lem rs req rec (some r) = ground arith

pub echo_lem :
    (rs : RuleSet) (req : PolicyRequest) (rec : Option SubscriberRecord) (hit : Option CompiledRule)
    → IsEcho rs req (strip_denied (granted rs req rec hit))
unfolding granted strip_denied
echo_lem rs req rec hit = ground arith

pub strip_denied_lem :
    (d : PolicyDecision) → (strip_denied d).verdict ≡ verdict_deny → GrantsNothing (strip_denied d)
unfolding strip_denied
strip_denied_lem d h = ground arith

from_plan_lem :
    (act : Action) (p : PlanConfig) (k own : ℕ) (get : PlanConfig → ℕ)
    → from_plan (has act.inherit_mask (2 ^ k)) (some p) get own
      ≡ (if test_bit act.inherit_mask k then get p else own)
from_plan_lem act p k own get = elim (Bool-cases (test_bit act.inherit_mask k)) [
  | inl h ↦ rw (has-bit act.inherit_mask k, h) refl
  | inr h ↦ rw (has-bit act.inherit_mask k, h) refl
]

remaining_lem : (quota usage : ℕ) → remaining quota usage ≡ quota - usage
remaining_lem quota usage = ground arith

unplanned_due :
    (rs : RuleSet) (req : PolicyRequest) (r : SubscriberRecord) (hit : Option CompiledRule)
    → plan rs r.plan_id ≡ none
    → GrantsOwn (action_of rs hit) (granted rs req (some r) hit)
unfolding granted
unplanned_due rs req r none no_plan = rw no_plan (ground arith)
unplanned_due rs req r (some q) no_plan = rw no_plan (ground arith)

planned_due :
    (rs : RuleSet) (req : PolicyRequest) (r : SubscriberRecord) (hit : Option CompiledRule)
    (p : PlanConfig)
    → plan rs r.plan_id ≡ some p
    → GrantsFrom p (usage_due req r) (action_of rs hit) (granted rs req (some r) hit)
unfolding granted
planned_due rs req r hit p at_plan = rw at_plan (
    let act = action_of rs hit in
    let quota =
      from_plan_lem act p 2 act.quota_bytes
        (λ q. remaining q.quota_bytes (usage_of req (some r))) in
    let left : remaining p.quota_bytes (usage_of req (some r)) ≡ p.quota_bytes - usage_due req r =
      remaining_lem p.quota_bytes (usage_of req (some r))
      ∙ ap (λ (u : ℕ). p.quota_bytes - u) (usage_of-due req r) in
    let left_if = ap (λ (n : ℕ). if test_bit act.inherit_mask 2 then n else act.quota_bytes) left in
    (
      quota ∙ left_if,
      from_plan_lem act p 2 act.quota_validity_s (λ q. q.quota_validity_s),
      from_plan_lem act p 1 act.ambr_ul_kbps (λ q. q.ambr_ul_kbps),
      from_plan_lem act p 1 act.ambr_dl_kbps (λ q. q.ambr_dl_kbps),
      from_plan_lem act p 0 act.qos_5qi (λ q. q.qos_5qi),
      from_plan_lem act p 0 act.arp (λ q. q.arp),
    ))

unknown_due :
    (rs : RuleSet) (req : PolicyRequest) (hit : Option CompiledRule)
    → GrantsOwn (action_of rs hit) (granted rs req none hit)
unfolding granted
unknown_due rs req none = ground arith
unknown_due rs req (some q) = ground arith

-- the same equations before a denial is stripped
granted_due :
    (rs : RuleSet) (req : PolicyRequest) (rec : Option SubscriberRecord) (hit : Option CompiledRule)
    → GrantsDue
        (plan_due rs rec)
        (usage_counted req rec)
        (action_of rs hit)
        (granted rs req rec hit)
granted_due rs req none hit = unknown_due rs req hit
granted_due rs req (some r) hit = elim (Option-cases (plan rs r.plan_id)) [
  | inl no_plan ↦ rw no_plan (unplanned_due rs req r hit no_plan)
  | inr (p, at_plan) ↦ rw at_plan (planned_due rs req r hit p at_plan)
]

rated_lem :
    (rs : RuleSet) (req : PolicyRequest) (rec : Option SubscriberRecord) (hit : Option CompiledRule)
    → (granted rs req rec hit).rating_group ≡ rating_group_due (action_of rs hit) (plan_due rs rec)
unfolding granted
rated_lem rs req none none = refl
rated_lem rs req none (some q) = refl
rated_lem rs req (some r) hit = elim (Option-cases (plan rs r.plan_id)) [
  | inl no_plan ↦ rw no_plan refl
  | inr (p, at_plan) ↦
      let act = action_of rs hit in
      rw at_plan (from_plan_lem act p 3 act.rating_group (λ q. q.rating_group))
]

flags_lem :
    (rs : RuleSet) (req : PolicyRequest) (rec : Option SubscriberRecord) (hit : Option CompiledRule)
    → (granted rs req rec hit).flags ≡ (
        if test_bit req.flags 2
        then bit_or (action_of rs hit).set_flags flag_usage_from_request
        else (action_of rs hit).set_flags)
unfolding granted
flags_lem rs req rec none = rw (has-bit req.flags 2) refl
flags_lem rs req rec (some q) = rw (has-bit req.flags 2) refl

strip_denied-keeps :
    (d : PolicyDecision) → (strip_denied d).verdict ≢ verdict_deny → strip_denied d ≡ d
unfolding strip_denied
strip_denied-keeps d h = ground arith

strip_denied-rating :
    (d : PolicyDecision)
    → ((strip_denied d).rating_group ≡ d.rating_group) × ((strip_denied d).flags ≡ d.flags)
unfolding strip_denied
strip_denied-rating d = ground arith

pub grant_lem :
    (rs : RuleSet) (req : PolicyRequest) (rec : Option SubscriberRecord) (hit : Option CompiledRule)
    → IsGrant rs req rec (action_of rs hit) (strip_denied (granted rs req rec hit))
grant_lem rs req rec hit = record {
  denied = strip_denied_lem (granted rs req rec hit);
  allowed = λ allow.
      subst (GrantsDue (plan_due rs rec) (usage_counted req rec) (action_of rs hit))
        (sym (strip_denied-keeps (granted rs req rec hit) allow)) (granted_due rs req rec hit);
  rated = (strip_denied-rating (granted rs req rec hit)).0 ∙ rated_lem rs req rec hit;
  flagged = (strip_denied-rating (granted rs req rec hit)).1 ∙ flags_lem rs req rec hit;
}
