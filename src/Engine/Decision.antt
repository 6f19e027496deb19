-- ===== src/Engine/Decision.antt =====
-- What a decision says, and what it never says.
use real_time_policy_authori.Common.{
  ℕ, ◌+◌, ◌≡◌, ◌≢◌, inl, inr, refl, true, Option, none, some, List, [], ◌∷◌, arith, Option-cases,
  subst, sym, ap, min, ◌∙◌, ◌==◌, if◌then◌else◌,
}
use mathlib.Core.Option.{some-injective}
use real_time_policy_authori.FlatSet.{◌>>=◌}
use real_time_policy_authori.Common.Bits.{bit_and-zero}
use real_time_policy_authori.Rules.{RuleSet, CompiledRule, PlanConfig, plan}
use real_time_policy_authori.Rules.Feat
use real_time_policy_authori.Store.{SubscriberRecord, SubscriberStore, LoadLimit}
use real_time_policy_authori.Store.Slots.{Directory}
use real_time_policy_authori.Store.Refines.{IsStore, find-refines}
use real_time_policy_authori.Wire.Messages.{PolicyRequest, PolicyDecision, verdict_deny}
use real_time_policy_authori.Engine.{
  has, plan_bit_for, usage_of, first_hit, matches, request_features, build_features, granted,
  strip_denied, evaluate, evaluate_stored,
}
use real_time_policy_authori.Engine.Fires.{Fires, first_hit-Fires}
use real_time_policy_authori.Engine.Answer.{IsAnswer, IsEcho, IsGrant, GrantsNothing, action_of}
use real_time_policy_authori.Engine.Grant.{answer_lem, echo_lem, grant_lem, strip_denied_lem}
use real_time_policy_authori.Engine.Returns.{
  IsReady, word, hit_of, build_features-word, evaluate_lem,
}

-- `evaluate` returns for every request and every subscriber, known or not, and what it gives is the
-- answer for the rule that fires.
pub evaluate-IsAnswer :
    {blocked partners : List ℕ} {rs : RuleSet}
    → IsReady blocked partners rs
    → (req : PolicyRequest) (rec : Option SubscriberRecord) (now : ℕ)
    → (d : PolicyDecision) × (f : ℕ) × (hit : Option CompiledRule) × (evaluate rs req rec now
        ≡ some d)
      × (build_features rs req rec now ≡ some f)
      × Fires f rec rs.rules hit
      × IsAnswer rs hit d
      × IsEcho rs req d
      × IsGrant rs req rec (action_of rs hit) d
evaluate-IsAnswer {blocked} {partners} {rs} ready req rec now =
    let f = word blocked partners rs req rec now in
    let hit = hit_of blocked partners rs req rec now in
    (
      strip_denied (granted rs req rec hit),
      f,
      hit,
      evaluate_lem ready req now rec,
      build_features-word ready req now rec,
      first_hit-Fires rs.rules f rec,
      answer_lem rs req rec hit,
      echo_lem rs req rec hit,
      grant_lem rs req rec hit,
    )

-- Over a well-formed store and a rule set whose sets were built by `rebuild` and that has at most
-- eight windows and thresholds, the decision for a request returns for every IMSI. With the record
-- that the map of the store has for the IMSI, known or not: the rule that fires is the first of the
-- table whose mask and value fit the feature word and that is for every plan or for the record's;
-- the decision carries its id, verdict, reason and redirect, or rule id 0, the default action and
-- NO_MATCHING_RULE where none fits; the request's sequence number and time stamp and the rule set's
-- version are echoed; a denial grants nothing; any other decision grants, for each of quota, bit
-- rates and QoS, what the record's plan has where the action leaves it to the plan and there is
-- one, and what the action says where not, of the quota what the usage has left; and so with the
-- rating group, which a denial keeps; the flags are the action's, and say whose usage was counted.
pub evaluate_stored-IsAnswer :
    {blocked partners : List ℕ} {rs : RuleSet} {limit : LoadLimit} {f : Directory}
    {s : SubscriberStore}
    → IsReady blocked partners rs
    → IsStore limit f s
    → (req : PolicyRequest) (now : ℕ)
    → (d : PolicyDecision) × (w : ℕ) × (hit : Option CompiledRule) × (evaluate_stored rs s req now
        ≡ some d)
      × (build_features rs req (f req.imsi) now ≡ some w)
      × Fires w (f req.imsi) rs.rules hit
      × IsAnswer rs hit d
      × IsEcho rs req d
      × IsGrant rs req (f req.imsi) (action_of rs hit) d
unfolding evaluate_stored
evaluate_stored-IsAnswer {limit = limit} {f = f} ready is req now =
    let (d, w, hit, run, built, fires, answer, echo, grant) =
      evaluate-IsAnswer ready req (f req.imsi) now in
    (d, w, hit, rw (find-refines limit is req.imsi, ◌>>=◌) run, built, fires, answer, echo, grant)

-- A successful evaluation, taken apart.
evaluate_inv :
    (rs : RuleSet) (req : PolicyRequest) (rec : Option SubscriberRecord) (now : ℕ)
    (d : PolicyDecision)
    → evaluate rs req rec now ≡ some d
    → (f : ℕ) × (build_features rs req rec now ≡ some f)
      × (d ≡ strip_denied (granted rs req rec (first_hit rs.rules f (plan_bit_for rec))))
unfolding evaluate
evaluate_inv rs req rec now d h = elim (Option-cases (build_features rs req rec now)) [
  | inl none_built ↦ cc (rw (none_built, ◌>>=◌) at h)
  | inr (f, built) ↦ (f, built, some-injective _ _ (sym (rw (built, ◌>>=◌) at h)))
]

-- A denial grants nothing: no bit rate, quota, validity, QoS class or ARP, whatever the rule, the
-- plan and the request say.
pub evaluate-denies :
    (rs : RuleSet) (req : PolicyRequest) (rec : Option SubscriberRecord) (now : ℕ)
    (d : PolicyDecision)
    → evaluate rs req rec now ≡ some d
    → d.verdict ≡ verdict_deny
    → GrantsNothing d
evaluate-denies rs req rec now d h deny =
    let (f, built, e) = evaluate_inv rs req rec now d h in
    let hit = first_hit rs.rules f (plan_bit_for rec) in
    let stripped = strip_denied_lem (granted rs req rec hit) (rw (← e) deny) in
    subst GrantsNothing (sym e) stripped

granted_quota :
    (rs : RuleSet) (req : PolicyRequest) (r : SubscriberRecord) (hit : Option CompiledRule)
    (p : PlanConfig)
    → plan rs r.plan_id ≡ some p
    → has (action_of rs hit).inherit_mask Feat.inherit_quota ≡ true
    → (action_of rs hit).verdict ≢ verdict_deny
    → ((strip_denied (granted rs req (some r) hit)).quota_bytes
          + min (usage_of req (some r)) p.quota_bytes
        ≡ p.quota_bytes)
      × ((strip_denied (granted rs req (some r) hit)).quota_validity_s ≡ p.quota_validity_s)
unfolding granted strip_denied
granted_quota rs req r none p at_plan inh allow = rw (at_plan, inh) (ground arith)
granted_quota rs req r (some q) p at_plan inh allow = rw (at_plan, inh) (ground arith)

-- Over a rule set whose sets were built by `rebuild`, a decision that is no denial, by an action that leaves the quota to the plan of a subscriber that
-- has one, grants exactly what is left of the plan's quota: with the usage, as far as the quota
-- goes, it adds up to the quota. The usage is the request's where the request says it is valid.
pub evaluate-quota :
    {blocked partners : List ℕ} {rs : RuleSet}
    → IsReady blocked partners rs
    → (req : PolicyRequest) (r : SubscriberRecord) (now : ℕ) (p : PlanConfig)
    → plan rs r.plan_id ≡ some p
    → has
        (action_of rs (hit_of blocked partners rs req (some r) now)).inherit_mask
        Feat.inherit_quota
      ≡ true
    → (action_of rs (hit_of blocked partners rs req (some r) now)).verdict ≢ verdict_deny
    → (d : PolicyDecision) × (evaluate rs req (some r) now ≡ some d)
      × (d.quota_bytes + min (usage_of req (some r)) p.quota_bytes ≡ p.quota_bytes)
      × (d.quota_validity_s ≡ p.quota_validity_s)
evaluate-quota {blocked} {partners} {rs} ready req r now p at_plan inh allow =
    let hit = hit_of blocked partners rs req (some r) now in
    let (sum, validity) = granted_quota rs req r hit p at_plan inh allow in
    (strip_denied (granted rs req (some r) hit), evaluate_lem ready req now (some r), sum, validity)

-- the rule is for every plan
abbrev pub IsGlobal : Option CompiledRule → Type 0
IsGlobal none = Unit
IsGlobal (some r) = r.plan_mask ≡ 0

Fires-IsGlobal :
    (rules : List CompiledRule) (f : ℕ) (hit : Option CompiledRule)
    → Fires f none rules hit
    → IsGlobal hit
Fires-IsGlobal rules f none h = tt
Fires-IsGlobal rules f (some r) h = elim h.4.1 [
  | inl every ↦ every
  | inr in_plans ↦ absurd in_plans
]

-- the table without the rules that are for some plans only
pub unscoped : List CompiledRule → List CompiledRule
unscoped [] = []
unscoped (r ∷ rules) = if r.plan_mask == 0 then r ∷ unscoped rules else unscoped rules

first_hit-unscoped :
    (rules : List CompiledRule) (f : ℕ) → first_hit (unscoped rules) f 0 ≡ first_hit rules f 0
unfolding first_hit unscoped matches
first_hit-unscoped [] f = refl
first_hit-unscoped (r ∷ rules) f =
    ground (arith, first_hit-unscoped rules f, bit_and-zero r.plan_mask)

abbrev without_scoped : RuleSet → RuleSet
without_scoped rs = record rs { rules = unscoped rs.rules }

unscoped_word :
    (rs : RuleSet) (req : PolicyRequest) (now : ℕ)
    → build_features (without_scoped rs) req none now ≡ build_features rs req none now
unfolding build_features request_features
unscoped_word rs req now = refl

unscoped_grant :
    (rs : RuleSet) (req : PolicyRequest) (hit : Option CompiledRule)
    → granted (without_scoped rs) req none hit ≡ granted rs req none hit
unfolding granted
unscoped_grant rs req hit = refl

unscoped_lem :
    (rs : RuleSet) (req : PolicyRequest) (now : ℕ)
    → evaluate (without_scoped rs) req none now ≡ evaluate rs req none now
unfolding evaluate plan_bit_for
unscoped_lem rs req now =
    rw (unscoped_word rs req now) (elim (Option-cases (build_features rs req none now)) [
      | inl unbuilt ↦ rw (unbuilt, ◌>>=◌) refl
      | inr (f, built) ↦
          let same = first_hit-unscoped rs.rules f in
          rw (built, ◌>>=◌, same)
            (ap (λ (d : PolicyDecision). some (strip_denied d))
              (unscoped_grant rs req (first_hit rs.rules f 0)))
    ])

-- Over a rule set whose sets were built by `rebuild` and that has at most eight windows and
-- thresholds, only a rule that is for every plan can fire for an unknown subscriber: the decision
-- returns, and is the answer for the first rule of the table that applies, or for none, which
-- names no plans; and it is the same decision over the table without the rules that name plans.
pub evaluate-unknown :
    {blocked partners : List ℕ} {rs : RuleSet}
    → IsReady blocked partners rs
    → (req : PolicyRequest) (now : ℕ)
    → (d : PolicyDecision) × (f : ℕ) × (hit : Option CompiledRule) × (evaluate rs req none now
        ≡ some d)
      × (build_features rs req none now ≡ some f)
      × Fires f none rs.rules hit
      × IsAnswer rs hit d
      × IsGlobal hit
      × (evaluate (record rs { rules = unscoped rs.rules }) req none now ≡ some d)
evaluate-unknown {rs = rs} ready req now =
    let (d, f, hit, run, built, fires, answer, echo, grant) =
      evaluate-IsAnswer ready req none now in
    (
      d,
      f,
      hit,
      run,
      built,
      fires,
      answer,
      Fires-IsGlobal rs.rules f hit fires,
      unscoped_lem rs req now ∙ run,
    )
