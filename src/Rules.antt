-- ===== src/Rules.antt =====
-- include/policy/rules.hpp: the compiled rules that the decision path reads, and src/rules.cpp: the
-- part of the compiler that turns conditions into (mask, value) pairs, orders the table and warns of
-- shadowed rules. The provenance of a rule set (path, digest and time of loading) is left out.
pub mod Feat
pub mod Window
pub mod Conditions
pub mod Pairs
pub mod Interning
pub mod Meaning
pub mod Order
mod Tests
use real_time_policy_authori.Common.{
  ℕ, Option, none, some, List, [], get_elem?, ltb, if◌then◌else◌, Bool, false,
}
use real_time_policy_authori.FlatSet.{FlatSet64, no_slots}
use Window.{TimeWindow}

pub record Action : Type 0 where
  pub quota_bytes : ℕ
  pub ambr_ul_kbps : ℕ
  pub ambr_dl_kbps : ℕ
  pub rating_group : ℕ
  pub quota_validity_s : ℕ
  pub verdict : ℕ
  pub reason : ℕ
  pub qos_5qi : ℕ
  pub arp : ℕ
  pub set_flags : ℕ
  pub redirect_id : ℕ
  pub inherit_mask : ℕ

pub record CompiledRule : Type 0 where
  pub match_mask : ℕ
  pub match_value : ℕ
  pub plan_mask : ℕ
  pub id : ℕ
  pub priority : ℕ
  pub action : Action

pub record PlanConfig : Type 0 where
  pub quota_bytes : ℕ
  pub quota_validity_s : ℕ
  pub rating_group : ℕ
  pub ambr_ul_kbps : ℕ
  pub ambr_dl_kbps : ℕ
  pub id : ℕ
  pub qos_5qi : ℕ
  pub arp : ℕ
  pub flags : ℕ

-- a text is the list of its bytes
abbrev pub Text : Type 0
Text = List ℕ

pub record RuleSet : Type 0 where
  pub version : ℕ
  pub rules : List CompiledRule
  pub plans : List PlanConfig
  pub plan_count : ℕ
  pub time_windows : List TimeWindow
  pub time_window_count : ℕ
  pub usage_thresholds_permille : List ℕ
  pub usage_threshold_count : ℕ
  pub roaming_partners : FlatSet64
  pub imei_blocklist : FlatSet64
  pub plan_names : List Text
  pub dnn_names : List Text
  pub redirect_targets : List Text
  pub default_action : Action

-- `RuleSet::plan`
unfoldable pub plan : RuleSet → ℕ → Option PlanConfig
plan rs plan_id = if ltb plan_id rs.plan_count then get_elem? rs.plans plan_id else none
