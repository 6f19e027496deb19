-- ===== src/Compiler.antt =====
-- src/rules.cpp, the class `Compiler`: from the YAML tree to a rule set. The state is the rule set under
-- construction, the errors and the warnings so far, and the tables of names. An error is the line that
-- it names: the words of the messages are left out, and those of the warnings are constructors. A
-- `std::map` is the list of its entries, the latest first.
pub mod Names
pub mod Tables
pub mod Actions
pub mod When
pub mod Loader
pub mod Outcomes
pub mod Clears
pub mod Inherits
pub mod Valid
pub mod Sound
pub mod Runs
pub mod Whole
pub mod Sets
pub mod Entries
pub mod Run
pub mod Returns
mod Tests
use Prim.Native.String.{String}
use real_time_policy_authori.Common.{
  ℕ, ◌+◌, ◌^◌, Bool, true, false, ◌||◌, Option, none, some, List, [], ◌∷◌, ◌++◌, length, replicate,
  get_elem?, ltb, leb, ◌==◌, if◌then◌else◌,
}
use real_time_policy_authori.Common.Text.{codes, text_eq, is_one_of}
use real_time_policy_authori.FlatSet.{no_slots}
use real_time_policy_authori.Rules.{Action, RuleSet, PlanConfig, Text}
use real_time_policy_authori.Rules.Window.{TimeWindow}
use real_time_policy_authori.Rules.Feat
use real_time_policy_authori.Yaml.{
  Node, null, scalar, sequence, mapping, Items, no_item, item, Fields, no_field, field, line_of,
  is_map, fields_of, find,
}

pub data Warning : Type 0 where
  unknown_key : (key : Text) (line : ℕ) → Warning
  unusual_5qi : (q : ℕ) → Warning
  half_of_qos : (line : ℕ) → Warning
  no_validity : (name : Text) → Warning
  malformed_lines : (count : ℕ) → Warning
  never_fires : (id by : ℕ) → Warning
  no_rules : Warning

pub record Compiler : Type 0 where
  pub rs : RuleSet
  pub errors : List ℕ
  pub warnings : List Warning
  pub plan_ids : List (Text × ℕ)
  pub redirect_ids : List (Text × ℕ)
  pub seen_rule_ids : List ℕ

unfoldable pub err : Compiler → ℕ → Compiler
err c line = record c { errors = c.errors ++ (line ∷ []) }

unfoldable pub warn : Compiler → Warning → Compiler
warn c w = record c { warnings = c.warnings ++ (w ∷ []) }

-- a step that may fail: the state holds the error then
abbrev pub Outcome : Type 0 → Type 0
Outcome A = Compiler × Option A

infixl 5 ◌and_then◌
abbrev pub ◌and_then◌ : {A B : Type 0} → Outcome A → (Compiler → A → Outcome B) → Outcome B
(c, none) and_then f = (c, none)
(c, some a) and_then f = f c a

abbrev pub fail : {A : Type 0} → Compiler → ℕ → Outcome A
fail c line = (err c line, none)

abbrev pub succeed : {A : Type 0} → Compiler → A → Outcome A
succeed c a = (c, some a)

unfoldable pub lookup_name : List (Text × ℕ) → Text → Option ℕ
unfolding text_eq
lookup_name [] name = none
lookup_name ((k, v) ∷ names) name =
    let rest = lookup_name names name in if text_eq k name then some v else rest

-- the loop of `check_unknown_keys`
unfoldable pub check_fields : Compiler → Fields → List String → Compiler
unfolding warn is_one_of
check_fields c no_field known = c
check_fields c (field k v fields) known =
    check_fields (if is_one_of k known then c else warn c (unknown_key k (line_of v))) fields known

unfoldable pub check_unknown_keys : Compiler → Node → List String → Compiler
unfolding check_fields
check_unknown_keys c n known = check_fields c (fields_of n) known

abbrev pub as_list : Node → Items
as_list (sequence line items) = items
as_list n = item n no_item

-- `Action{}`
abbrev pub blank_action : Action
blank_action = record {
  quota_bytes = 0;
  ambr_ul_kbps = 0;
  ambr_dl_kbps = 0;
  rating_group = 0;
  quota_validity_s = 0;
  verdict = 0;
  reason = 0;
  qos_5qi = 0;
  arp = 0;
  set_flags = 0;
  redirect_id = 0;
  inherit_mask = 0;
}

unfoldable pub default_deny_action : Action
default_deny_action = record blank_action { verdict = 1; reason = 13 }

abbrev pub blank_plan : PlanConfig
blank_plan = record {
  quota_bytes = 0;
  quota_validity_s = 0;
  rating_group = 0;
  ambr_ul_kbps = 0;
  ambr_dl_kbps = 0;
  id = 0;
  qos_5qi = 9;
  arp = 8;
  flags = 0;
}

abbrev pub no_window : TimeWindow
no_window = record { start_minute = 0; end_minute = 0 }

-- `RuleSet`, with its fixed arrays filled with blanks
unfoldable pub empty_rule_set : ℕ → RuleSet
unfolding default_deny_action
empty_rule_set version = record {
  version = version;
  rules = [];
  plans = replicate Feat.max_plans blank_plan;
  plan_count = 0;
  time_windows = replicate Feat.max_time_windows no_window;
  time_window_count = 0;
  usage_thresholds_permille = replicate Feat.max_usage_thresholds 0;
  usage_threshold_count = 0;
  roaming_partners = no_slots;
  imei_blocklist = no_slots;
  plan_names = [];
  dnn_names = [];
  redirect_targets = [];
  default_action = default_deny_action;
}

unfoldable pub start : ℕ → Compiler
unfolding empty_rule_set
start version = record {
  rs = empty_rule_set version;
  errors = [];
  warnings = [];
  plan_ids = [];
  redirect_ids = [];
  seen_rule_ids = [];
}
