-- ===== src/Engine/Tests.antt =====
-- A small rule set, and the theorems on decisions at requests of its subscribers.
use real_time_policy_authori.Common.{
  ℕ, ◌+◌, ◌*◌, ◌/◌, ◌%◌, ◌^◌, ◌≤◌, ◌<◌, ◌≡◌, ◌≢◌, ◌↔◌, refl, sym, subst, ◌∙◌, true, Option, none,
  some, List, [], ◌∷◌, ◌++◌, arith, min, ltb,
}
use mathlib.Core.Option.{some-injective}
use real_time_policy_authori.Common.Bits.{set_if, test_bit}
use real_time_policy_authori.FlatSet.Refines.{rebuild-Refines}
use real_time_policy_authori.Rules.{Action, CompiledRule, PlanConfig, RuleSet, plan}
use real_time_policy_authori.Rules.Feat
use real_time_policy_authori.Rules.Window
use real_time_policy_authori.Rules.Order.{shadows, shadow_of, stable_sort, insert_rule}
use real_time_policy_authori.Store.{SubscriberRecord, LoadLimit, blank, upsert}
use real_time_policy_authori.Store.Grow.{nowhere, blank-Holds}
use real_time_policy_authori.Store.Refines.{IsStore, Upserts, upsert-refines}
use real_time_policy_authori.Wire.Messages.{PolicyRequest, PolicyDecision, verdict_deny}
use real_time_policy_authori.Engine.{
  has, window_bits, usage_bits, request_features, subscriber_features, status_bit, usage_of,
  plan_bit_for, matches, build_features, first_hit, granted, strip_denied, evaluate,
  evaluate_stored,
}
use real_time_policy_authori.Engine.Gbr.{is_gbr_5qi}
use real_time_policy_authori.Engine.Usage.{
  usage_at_least_permille, usage_at_least_fallback, usage_at_least_permille-exact,
  usage_at_least_fallback_lem,
}
use real_time_policy_authori.Engine.Order.{best, first_hit-stable_sort}
use real_time_policy_authori.Engine.Shadow.{shadow_of-first_hit}
use real_time_policy_authori.Engine.Returns.{IsReady, word, hit_of, evaluate_lem}
use real_time_policy_authori.Engine.Facts.{IsOpen, HasUsed}
use real_time_policy_authori.Engine.Features.{build_features-window, build_features-threshold}
use real_time_policy_authori.Engine.Fires.{Fires}
use real_time_policy_authori.Engine.Answer.{IsAnswer, IsEcho, IsGrant, GrantsNothing, action_of}
use real_time_policy_authori.Engine.Decision.{
  IsGlobal, unscoped, evaluate_stored-IsAnswer, evaluate-denies, evaluate-quota, evaluate-unknown,
}

abbrev blocked : List ℕ
blocked = 490154203237518 ∷ []

abbrev partners : List ℕ
partners = 208001 ∷ []

abbrev allow : Action
allow = record {
  quota_bytes = 0;
  ambr_ul_kbps = 0;
  ambr_dl_kbps = 0;
  rating_group = 0;
  quota_validity_s = 0;
  verdict = 0;
  reason = 0;
  qos_5qi = 0;
  arp = 0;
  set_flags = 0;
  redirect_id = 0;
  inherit_mask = 15;
}

abbrev deny : Action
deny = record allow { verdict = 1; reason = 4; quota_bytes = 77; inherit_mask = 0 }

-- blocked devices are denied, and so is what no rule allows
abbrev blocked_device : CompiledRule
blocked_device = record {
  match_mask = 2 ^ 33;
  match_value = 2 ^ 33;
  plan_mask = 0;
  id = 10;
  priority = 10;
  action = deny;
}

abbrev heavy_user : CompiledRule
heavy_user = record {
  match_mask = 2 ^ 48;
  match_value = 2 ^ 48;
  plan_mask = 1;
  id = 20;
  priority = 20;
  action = allow;
}

abbrev anyone : CompiledRule
anyone = record {
  match_mask = 2 ^ 33;
  match_value = 0;
  plan_mask = 0;
  id = 30;
  priority = 30;
  action = record allow { quota_bytes = 5; inherit_mask = 0 };
}

-- tests all that `heavy_user` tests, and more
abbrev heavy_roamer : CompiledRule
heavy_roamer = record heavy_user {
  match_mask = 2 ^ 48 + 2 ^ 29;
  match_value = 2 ^ 48 + 2 ^ 29;
  id = 40;
  priority = 40;
}

abbrev gold : PlanConfig
gold = record {
  quota_bytes = 1000;
  quota_validity_s = 3600;
  rating_group = 1;
  ambr_ul_kbps = 10;
  ambr_dl_kbps = 20;
  id = 0;
  qos_5qi = 9;
  arp = 8;
  flags = 0;
}

abbrev sample_rules : RuleSet
sample_rules = record {
  version = 3;
  rules = blocked_device ∷ heavy_user ∷ anyone ∷ [];
  plans = gold ∷ [];
  plan_count = 1;
  time_windows = record { start_minute = 1320; end_minute = 360 } ∷ [];
  time_window_count = 1;
  usage_thresholds_permille = 800 ∷ [];
  usage_threshold_count = 1;
  roaming_partners = (rebuild-Refines partners (omega arith)).0;
  imei_blocklist = (rebuild-Refines blocked (omega arith)).0;
  plan_names = [];
  dnn_names = [];
  redirect_targets = [];
  default_action = deny;
}

sample_rules-IsReady : IsReady blocked partners sample_rules
sample_rules-IsReady = record {
  blocklist = (rebuild-Refines blocked (omega arith)).2;
  partner_table = (rebuild-Refines partners (omega arith)).2;
  windows = omega arith;
  thresholds = omega arith;
}

abbrev request : PolicyRequest
request = record {
  magic_version = 0x504C4301;
  seq = 7;
  imsi = 310260000000001;
  imei = 356938035643809;
  client_ts_ns = 1000000;
  bytes_used_period = 900;
  plmn = 208001;
  tac = 1;
  rat_type = 1;
  dnn_id = 2;
  requested_5qi = 9;
  flags = 4;
  local_minute = 1400;
  req_ambr_ul_kbps = 0;
  req_ambr_dl_kbps = 0;
  reserved = 0;
}

abbrev subscriber : SubscriberRecord
subscriber = record {
  imsi = 310260000000001;
  imei = 0;
  plan_id = 0;
  status = 0;
  bytes_used_period = 0;
  period_reset_ts = 0;
  home_plmn = 310260;
  flags = 1;
}

-- the rule for heavy users fires
fires : hit_of blocked partners sample_rules request (some subscriber) 0 ≡ some heavy_user
unfolding word first_hit matches request_features subscriber_features window_bits usage_bits set_if
    status_bit usage_of is_gbr_5qi usage_at_least_permille Window.contains plan plan_bit_for
fires = refl

at_gold : plan sample_rules 0 ≡ some gold
unfolding plan
at_gold = refl

inherits_quota :
    has
      (action_of sample_rules
        (hit_of blocked partners sample_rules request (some subscriber) 0)).inherit_mask
      Feat.inherit_quota
    ≡ true
inherits_quota = rw fires refl

allowed :
    (action_of sample_rules
      (hit_of blocked partners sample_rules request (some subscriber) 0)).verdict
    ≢ verdict_deny
allowed = rw fires (omega arith)

evaluate-quota_example :
    (d : PolicyDecision) × (evaluate sample_rules request (some subscriber) 0 ≡ some d)
    × (d.quota_bytes + min (usage_of request (some subscriber)) 1000 ≡ 1000)
    × (d.quota_validity_s ≡ 3600)
evaluate-quota_example =
    evaluate-quota sample_rules-IsReady request subscriber 0 gold at_gold inherits_quota allowed

abbrev stolen : PolicyRequest
stolen = record request { imei = 490154203237518 }

abbrev refusal : PolicyDecision
refusal = strip_denied (
    granted sample_rules stolen (some subscriber)
      (hit_of blocked partners sample_rules stolen (some subscriber) 0))

stops_stolen : hit_of blocked partners sample_rules stolen (some subscriber) 0 ≡ some blocked_device
unfolding word first_hit matches request_features subscriber_features window_bits usage_bits set_if
    status_bit usage_of is_gbr_5qi usage_at_least_permille Window.contains plan plan_bit_for
stops_stolen = refl

refused : refusal.verdict ≡ verdict_deny
unfolding strip_denied granted
refused = rw stops_stolen refl

evaluate-denies_example : GrantsNothing refusal
evaluate-denies_example =
    evaluate-denies sample_rules stolen (some subscriber) 0 refusal
      (evaluate_lem sample_rules-IsReady stolen 0 (some subscriber)) refused

evaluate-unknown_example :
    (d : PolicyDecision) × (f : ℕ) × (hit : Option CompiledRule) × (evaluate sample_rules request
        none 0
      ≡ some d)
    × (build_features sample_rules request none 0 ≡ some f)
    × Fires f none sample_rules.rules hit
    × IsAnswer sample_rules hit d
    × IsGlobal hit
    × (evaluate (record sample_rules { rules = unscoped sample_rules.rules }) request none 0
        ≡ some d)
evaluate-unknown_example = evaluate-unknown sample_rules-IsReady request 0

abbrev visitor : PolicyDecision
visitor =
    strip_denied
      (granted sample_rules request none (hit_of blocked partners sample_rules request none 0))

abbrev shuffled : List CompiledRule
shuffled = anyone ∷ heavy_roamer ∷ heavy_user ∷ blocked_device ∷ []

first_hit-stable_sort_example :
    first_hit (stable_sort shuffled) (2 ^ 48) 1 ≡ best shuffled (2 ^ 48) 1
first_hit-stable_sort_example = first_hit-stable_sort shuffled (2 ^ 48) 1

sorted_run : stable_sort shuffled ≡ blocked_device ∷ heavy_user ∷ anyone ∷ heavy_roamer ∷ []
unfolding stable_sort insert_rule
sorted_run = refl

shadowed : shadow_of sample_rules.rules heavy_roamer ≡ some heavy_user
unfolding shadow_of shadows
shadowed = refl

shadow_of-first_hit_example :
    first_hit (sample_rules.rules ++ heavy_roamer ∷ anyone ∷ []) (2 ^ 48 + 2 ^ 29) 1
    ≡ first_hit (sample_rules.rules ++ anyone ∷ []) (2 ^ 48 + 2 ^ 29) 1
shadow_of-first_hit_example =
    shadow_of-first_hit sample_rules.rules (anyone ∷ []) heavy_user heavy_roamer
      (omega arith, (omega arith, (omega arith, tt))) (omega arith) shadowed (2 ^ 48 + 2 ^ 29) 1

build_features-window_example :
    (f : ℕ) × (build_features sample_rules request (some subscriber) 0 ≡ some f)
    × ((test_bit f (40 + 0) ≡ true)
        ↔ ((0 < 1) × IsOpen (record { start_minute = 1320; end_minute = 360 }) (1400 % 1440)))
build_features-window_example =
    build_features-window sample_rules-IsReady request 0 (some subscriber) 0 (omega arith)
      (omega arith) (omega arith)

gold_is_small :
    (p : PlanConfig) → plan sample_rules subscriber.plan_id ≡ some p → p.quota_bytes < 2 ^ 64
gold_is_small p at_plan =
    subst (λ (q : PlanConfig). q.quota_bytes < 2 ^ 64) (some-injective _ _ (sym at_gold ∙ at_plan))
      (omega arith)

build_features-threshold_example :
    (f : ℕ) × (build_features sample_rules request (some subscriber) 0 ≡ some f)
    × ((test_bit f (48 + 0) ≡ true)
        ↔ ((0 < 1) × HasUsed sample_rules request (some subscriber) 800))
build_features-threshold_example =
    build_features-threshold sample_rules-IsReady request 0 (some subscriber) 0
      (omega arith, omega arith, gold_is_small) (omega arith)

usage_at_least_permille-exact_example :
    (usage_at_least_permille 900 1000 800 ≡ true)
    ↔ ((◌≢◌ {A = ℕ} 1000 0) × (1000 * 800 ≤ 900 * 1000))
usage_at_least_permille-exact_example =
    usage_at_least_permille-exact 900 1000 800 (omega arith) (omega arith) (omega arith)

-- half of a quota of one byte, unused
usage_at_least_fallback_example :
    ((usage_at_least_fallback 0 1 500 ≡ true) ↔ ((◌≢◌ {A = ℕ} 1 0) × (1 * 500 / 1000 ≤ 0)))
    × ((usage_at_least_fallback 0 1 500 ≢ usage_at_least_permille 0 1 500)
        ↔ ((◌≢◌ {A = ℕ} 1 0) × (0 ≡ 1 * 500 / 1000) × (1 * 500 % 1000 ≢ 0)))
usage_at_least_fallback_example =
    usage_at_least_fallback_lem 0 1 500 (omega arith) (omega arith) (omega arith) (omega arith)

-- the load factor 0.5
abbrev half_load : LoadLimit
half_load = record {
  over = λ n cap. ltb cap (n * 2);
  over-lt = λ n cap pos h. ground arith;
  over-zero = λ cap. ground arith;
  over_mono = λ m n cap cap' le le' h. ground arith;
  over_double = λ n cap wide h. ground arith;
}

nobody-IsStore : IsStore half_load nowhere (blank 8)
nobody-IsStore = record { exponent = 3; holds = blank-Holds half_load 3 8 (omega arith) refl }

-- the store after the subscriber was added to it
abbrev stored : Upserts half_load nowhere subscriber (upsert half_load 1 (blank 8) subscriber)
stored = upsert-refines half_load nobody-IsStore (omega arith) 0 subscriber (omega arith)

evaluate_stored-IsAnswer_example :
    (d : PolicyDecision) × (w : ℕ) × (hit : Option CompiledRule) × (evaluate_stored sample_rules
        stored.0 request 0
      ≡ some d)
    × (build_features sample_rules request (some subscriber) 0 ≡ some w)
    × Fires w (some subscriber) sample_rules.rules hit
    × IsAnswer sample_rules hit d
    × IsEcho sample_rules request d
    × IsGrant sample_rules request (some subscriber) (action_of sample_rules hit) d
evaluate_stored-IsAnswer_example = evaluate_stored-IsAnswer sample_rules-IsReady stored.2 request 0
