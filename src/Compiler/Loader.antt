-- ===== src/Compiler/Loader.antt =====
-- src/rules.cpp: `load_rules`, `sort_and_check` and `run`, on the tree of a file that parses.
use Prim.Native.String.{String}
use real_time_policy_authori.Common.{
  ℕ, ◌+◌, ◌-◌, ◌^◌, Bool, true, false, not, Option, none, some, List, [], ◌∷◌, ◌++◌, length, memb,
  ltb, ◌==◌, if◌then◌else◌, bit_or,
}
use real_time_policy_authori.FlatSet.{◌>>=◌}
use real_time_policy_authori.Rules.{RuleSet, CompiledRule, Action, Text}
use real_time_policy_authori.Rules.Conditions.{Pairs}
use real_time_policy_authori.Rules.Order.{stable_sort, shadow_warnings}
use real_time_policy_authori.Yaml.{
  Node, scalar, sequence, Items, no_item, item, line_of, is_map, scalar_of, find, Libc, as_uint,
}
use real_time_policy_authori.Compiler.{
  Compiler, Outcome, ◌and_then◌, fail, succeed, err, warn, never_fires, no_rules, lookup_name,
  check_unknown_keys, blank_action, default_deny_action, start,
}
use real_time_policy_authori.Compiler.Actions.{between, parse_action}
use real_time_policy_authori.Compiler.Tables.{
  each, line_or_zero, load_dnns, load_redirects, load_plans, load_roaming_partners,
  load_imei_blocklist,
}
use real_time_policy_authori.Compiler.When.{compile_when}

-- `add`, the lambda of `resolve_plan_mask`, over a list; the last flag is `ok`
unfoldable pub add_plans : Items → Compiler → ℕ → Bool → Compiler × ℕ × Bool
unfolding lookup_name err
add_plans no_item c mask ok = (c, mask, ok)
add_plans (item v items) c mask ok = elim (scalar_of v >>= lookup_name c.plan_ids) [
  | none ↦ add_plans items (err c (line_of v)) mask false
  | some id ↦ add_plans items c (bit_or mask (2 ^ id)) ok
]

abbrev pub resolve : Compiler → Items → Outcome ℕ
resolve c items =
    let (c', mask, ok) = add_plans items c 0 true in if ok then succeed c' mask else (c', none)

unfoldable pub resolve_plan_mask : Compiler → Node → Outcome ℕ
unfolding add_plans err
resolve_plan_mask c (scalar line text) = resolve c (item (scalar line text) no_item)
resolve_plan_mask c (sequence line items) = resolve c items
resolve_plan_mask c n = fail c (line_of n)

-- a member that may be absent
abbrev pub if_present :
    {A : Type 0} → Option Node → A → (Compiler → Node → Outcome A) → Compiler → Outcome A
if_present none dflt f c = succeed c dflt
if_present (some n) dflt f c = f c n

-- the action that a rule starts from
abbrev pub allow_action : Action
allow_action = record blank_action { inherit_mask = 15 }

abbrev pub max_rules : ℕ
max_rules = 4096

abbrev pub rule_keys : List String
rule_keys = "id" ∷ "name" ∷ "priority" ∷ "plans" ∷ "when" ∷ "action" ∷ []

-- one compiled rule for each pair
unfoldable pub rules_of : ℕ → ℕ → ℕ → Action → Pairs → List CompiledRule
rules_of id priority plan_mask action [] = []
rules_of id priority plan_mask action ((mask, value) ∷ ms) =
    record {
      match_mask = mask;
      match_value = value;
      plan_mask = plan_mask;
      id = id;
      priority = priority;
      action = action;
    }
    ∷ rules_of id priority plan_mask action ms

module _ {D : Type 0} (lib : Libc D) where
  -- an id that is new is noted, whether or not the rest of the rule is right
  unfoldable pub read_id : Compiler → Node → Outcome ℕ
  unfolding find as_uint err
  read_id c n = elim (between 1 (2 ^ 32 - 1) (find n "id" >>= as_uint lib)) [
    | none ↦ fail c (line_of n)
    | some id ↦
        if memb id c.seen_rule_ids
        then fail c (line_of n)
        else succeed (record c { seen_rule_ids = id ∷ c.seen_rule_ids }) id
  ]

  unfoldable pub read_priority : Compiler → Node → Outcome ℕ
  unfolding find as_uint err
  read_priority c n = elim (between 0 (2 ^ 32 - 1) (find n "priority" >>= as_uint lib)) [
    | none ↦ fail c (line_of n)
    | some priority ↦ succeed c priority
  ]

  unfoldable pub read_rule_action : Compiler → Node → Outcome Action
  unfolding find parse_action err
  read_rule_action c n = elim (find n "action") [
    | none ↦ fail c (line_of n)
    | some act ↦ parse_action lib c act allow_action
  ]

  -- the rules that one entry of the file is compiled to
  unfoldable pub compile_rule : Compiler → Node → Outcome (List CompiledRule)
  unfolding read_id read_priority find resolve_plan_mask compile_when read_rule_action rules_of
  compile_rule c n = read_id c n and_then λ c id. read_priority c n and_then λ c priority.
      if_present (find n "plans") 0 resolve_plan_mask c and_then λ c plan_mask.
      if_present (find n "when") ((0, 0) ∷ []) (λ c w. compile_when lib c w ((0, 0) ∷ [])) c
      and_then λ c ms. read_rule_action c n and_then λ c action.
          succeed c (rules_of id priority plan_mask action ms)

  unfoldable pub load_rule : Compiler → Node → Compiler × Bool
  unfolding check_unknown_keys compile_rule err
  load_rule c n =
      if not (is_map n)
      then (err c (line_of n), true)
      else let (c, compiled) = compile_rule (check_unknown_keys c n rule_keys) n in
        elim compiled [
          | none ↦ (c, true)
          | some rules ↦
              if ltb max_rules (length c.rs.rules + length rules)
              then (err c (line_of n), false)
              else (record c { rs = record c.rs { rules = c.rs.rules ++ rules } }, true)
        ]

  unfoldable pub load_rules : Compiler → Option Node → Compiler
  unfolding each load_rule err
  load_rules c (some (sequence line items)) = each load_rule items c
  load_rules c n = err c (line_or_zero n)

  unfoldable pub load_default_action : Compiler → Option Node → Compiler
  unfolding parse_action default_deny_action
  load_default_action c none = c
  load_default_action c (some d) =
      let (c, action) = parse_action lib c d default_deny_action in
      elim action [ none ↦ c | some a ↦ record c { rs = record c.rs { default_action = a } } ]

  unfoldable pub warn_all : Compiler → List (ℕ × ℕ) → Compiler
  unfolding warn
  warn_all c [] = c
  warn_all c ((id, by) ∷ pairs) = warn_all (warn c (never_fires id by)) pairs

  unfoldable pub sort_and_check : Compiler → Compiler
  unfolding warn warn_all stable_sort shadow_warnings
  sort_and_check c =
      let rules = stable_sort c.rs.rules in
      let c =
        warn_all (record c { rs = record c.rs { rules = rules } }) (shadow_warnings [] rules) in
      if length rules == 0 then warn c no_rules else c

  abbrev pub root_keys : List String
  root_keys =
      "version" ∷ "dnns" ∷ "plans" ∷ "redirects" ∷ "roaming_partners" ∷ "imei_blocklist"
      ∷ "default_action" ∷ "rules" ∷ []

  -- the end of `run`: the rule set is handed out only if there was no error
  unfoldable pub finish : Compiler → Compiler × Option RuleSet
  unfolding sort_and_check
  finish c =
      if length c.errors == 0 then (let c = sort_and_check c in (c, some c.rs)) else (c, none)

  -- the tables that need no set
  unfoldable pub load_names : ℕ → Node → Compiler
  unfolding start check_unknown_keys find load_dnns load_redirects load_plans
  load_names version root =
      let c = check_unknown_keys (start version) root root_keys in
      let c = load_dnns c (find root "dnns") in
      let c = load_redirects c (find root "redirects") in load_plans lib c (find root "plans")

  -- `run`, from the tree on
  unfoldable pub run : (Text → Option (List Text)) → ℕ → Node → Option (Compiler × Option RuleSet)
  unfolding start err load_names find load_roaming_partners load_imei_blocklist load_default_action
      load_rules finish
  run open_file version root =
      if not (is_map root)
      then some (err (start version) (line_of root), none)
      else (load_roaming_partners (load_names version root) (find root "roaming_partners") >>= λ c.
          load_imei_blocklist open_file c (find root "imei_blocklist") >>= λ c.
          let c = load_default_action c (find root "default_action") in
          some (finish (load_rules c (find root "rules"))))
