-- ===== src/Compiler/Tests.antt =====
-- Small policy files, as the trees that they parse to, and the theorems at concrete inputs. The C
-- library is one that reads decimal digits: a `double` is a natural number.
use Prim.Native.String.{String}
use real_time_policy_authori.Common.{
  ℕ, ◌+◌, ◌-◌, ◌*◌, ◌/◌, ◌≡◌, ◌==◌, refl, is_some, Bool, true, false, ◌&&◌, Option, none, some,
  List, [], ◌∷◌, length, if◌then◌else◌, ltb, leb, arith,
}
use real_time_policy_authori.Common.Bits.{test_bit}
use real_time_policy_authori.Common.Text.{codes}
use real_time_policy_authori.Hdr.{pos}
use real_time_policy_authori.Rules.{Action, RuleSet, Text}
use real_time_policy_authori.Yaml.{
  Node, scalar, sequence, mapping, no_item, item, no_field, field, Libc, find, has, as_time_of_day,
}
use real_time_policy_authori.Rules.Conditions.{intern_usage_threshold, first_index, add_bit}
use real_time_policy_authori.Rules.Order.{insert_rule, shadow_of}
use real_time_policy_authori.Compiler.{Compiler, start, empty_rule_set}
use real_time_policy_authori.Compiler.Actions.{parse_action}
use real_time_policy_authori.Compiler.Inherits.{own_arp, key_of, inherit_bit, parse_action-owns}
use real_time_policy_authori.Compiler.Loader.{run, allow_action}
use real_time_policy_authori.Compiler.Sound.{IsSound}
use real_time_policy_authori.Compiler.Run.{run-IsSound}
use real_time_policy_authori.Compiler.Returns.{run-returns, run-errors, listed_in}
use real_time_policy_authori.Compiler.Tables.{read_plan}

-- the digits at the front, and what is left
digits : ℕ → Text → ℕ × Text
digits v [] = (v, [])
digits v (c ∷ s) =
    let rest = digits (v * 10 + (c - 48)) s in if leb 48 c && leb c 57 then rest else (v, c ∷ s)

abbrev decimal : Text → Option (ℕ × Text)
decimal [] = none
decimal (c ∷ s) = if leb 48 c && leb c 57 then some (digits 0 (c ∷ s)) else none

abbrev plain : Libc ℕ
plain = record {
  strtoll = λ s. elim (decimal s) [ none ↦ none | some (v, rest) ↦ some (pos v, rest) ];
  strtol = λ s. pos (digits 0 s).0;
  strtod = decimal;
  is_finite = λ v. true;
  is_negative = λ v. false;
  times = λ v n. v * n;
  over = λ v n. v / n;
  exceeds = λ v n. ltb n v;
  plus_half = λ v. v;
  truncate = λ v. v;
}

abbrev no_files : Text → Option (List Text)
no_files path = none

abbrev text : String → Node
text s = scalar 1 (codes s)

abbrev action_node : Node
action_node = mapping 3 (
    field (codes "verdict") (text "redirect")
      (field (codes "redirect") (text "portal") (field (codes "arp") (text "3") no_field)))

abbrev policy : Node
policy = mapping 1 (
    field (codes "dnns") (sequence 1 (item (text "internet") no_item)) (
      field (codes "redirects") (mapping 1 (field (codes "portal") (text "http://portal") no_field))
        (field (codes "plans")
          (sequence 1 (item (mapping 1 (field (codes "name") (text "gold") no_field)) no_item))
          (field (codes "rules")
            (sequence 2 (
              item
                (mapping 2 (
                  field (codes "id") (text "7") (
                    field (codes "priority") (text "10") (
                      field (codes "plans") (text "gold") (
                        field (codes "when")
                          (mapping 2 (field (codes "usage_above") (text "80%") no_field))
                          (field (codes "action") action_node no_field))))))
                no_item))
            no_field))))

-- the parts of the result that the tests look at
abbrev shown : Option (Compiler × Option RuleSet) → List ℕ
shown (some (c, some rs)) =
    length c.errors
    ∷ length rs.rules
    ∷ rs.plan_count
    ∷ rs.usage_threshold_count
    ∷ length rs.redirect_targets
    ∷ []
shown (some (c, none)) = c.errors
shown none = []

policy_runs : shown (run plain no_files 1 policy) ≡ 0 ∷ 1 ∷ 1 ∷ 1 ∷ 2 ∷ []
unfolding run digits intern_usage_threshold first_index add_bit insert_rule shadow_of
policy_runs = refl

abbrev compiled : Option (Compiler × Option RuleSet)
compiled = run plain no_files 1 policy

abbrev state_of : Option (Compiler × Option RuleSet) → Compiler
state_of (some (c, o)) = c
state_of none = start 1

abbrev rules_of : Option (Compiler × Option RuleSet) → RuleSet
rules_of (some (c, some rs)) = rs
rules_of _ = empty_rule_set 1

abbrev is_handed_out : Option (Compiler × Option RuleSet) → Bool
is_handed_out (some (c, some rs)) = true
is_handed_out _ = false

handed_out_inv :
    (o : Option (Compiler × Option RuleSet))
    → is_handed_out o ≡ true
    → o ≡ some (state_of o, some (rules_of o))
handed_out_inv none h = cc h
handed_out_inv (some (c, none)) h = cc h
handed_out_inv (some (c, some rs)) h = refl

policy_is_handed_out : is_handed_out compiled ≡ true
unfolding run digits intern_usage_threshold first_index add_bit insert_rule shadow_of
policy_is_handed_out = refl

run-IsSound_example : IsSound (rules_of compiled) (state_of compiled).redirect_ids
run-IsSound_example =
    run-IsSound plain no_files 1 policy (state_of compiled) (rules_of compiled)
      (handed_out_inv compiled policy_is_handed_out)

-- an action that sets the ARP, of a rule that would inherit everything
abbrev only_arp : Node
only_arp = mapping 3 (field (codes "arp") (text "3") no_field)

abbrev parsed : Compiler × Option Action
parsed = parse_action plain (start 1) only_arp allow_action

abbrev parsed_action : Action
parsed_action = elim parsed.1 [ none ↦ allow_action | some a ↦ a ]

arp_is_there : has only_arp (key_of own_arp) ≡ true
unfolding has
arp_is_there = refl

arp_parses : parsed ≡ (parsed.0, some parsed_action)
unfolding parse_action digits
arp_parses = refl

parse_action-owns_example : test_bit parsed_action.inherit_mask (inherit_bit own_arp) ≡ false
parse_action-owns_example =
    parse_action-owns plain (start 1) parsed.0 only_arp allow_action parsed_action own_arp
      arp_is_there arp_parses

run-returns_example : (out : Compiler × Option RuleSet) × (run plain no_files 1 policy ≡ some out)
unfolding listed_in find
run-returns_example =
    run-returns plain no_files 1 policy (λ path lines e. cc e) (omega arith) (omega arith)

run-errors_example : is_some (some (rules_of compiled)) ≡ (length (state_of compiled).errors == 0)
run-errors_example =
    run-errors plain no_files 1 policy (state_of compiled) (some (rules_of compiled))
      (handed_out_inv compiled policy_is_handed_out)

-- A plan whose rating group is 2^32: it is cut to 0.
cut_group :
    (read_plan plain
      (start 1)
      (mapping 1 (field (codes "rating_group") (text "4294967296") no_field))
      0).1.rating_group
    ≡ 0
unfolding read_plan digits
cut_group = refl

-- A colon alone is midnight, since what is not a number is read as 0.
colon_is_midnight : as_time_of_day plain (text ":") ≡ some 0
unfolding as_time_of_day digits
colon_is_midnight = refl
