-- ===== src/Compiler/When.antt =====
-- src/rules.cpp, `compile_when`: a member of the `when` mapping is read as a `Condition`, which
-- `Rules/Conditions.antt` turns into (mask, value) pairs.
use Prim.Native.String.{String}
use real_time_policy_authori.Common.{
  ℕ, ◌+◌, Bool, true, false, Option, none, some, List, [], ◌∷◌, if◌then◌else◌,
}
use real_time_policy_authori.Common.Text.{codes, text_eq}
use real_time_policy_authori.FlatSet.{◌>>=◌}
use real_time_policy_authori.Rules.{RuleSet, Text}
use real_time_policy_authori.Rules.Feat
use real_time_policy_authori.Rules.Conditions.{
  Condition, flag, one_of, none_of, usage, time, Pairs, compile_condition,
}
use real_time_policy_authori.Yaml.{
  Node, mapping, Items, no_item, item, Fields, no_field, field, line_of, scalar_of, find, Libc,
  as_permille, as_time_of_day, as_bool,
}
use real_time_policy_authori.Compiler.{Compiler, Outcome, ◌and_then◌, fail, succeed, err, as_list}
use real_time_policy_authori.Compiler.Names.{parse_status, parse_rat}
use real_time_policy_authori.Compiler.Tables.{index_of}

-- what was read, or the line of the error
pub data Reading (A : Type 0) : Type 0 where
  refused : (line : ℕ) → Reading A
  reading : A → Reading A

-- the bits of the names in a list
unfoldable pub read_bits : (Text → Option ℕ) → Items → Reading (List ℕ)
read_bits parse no_item = reading []
read_bits parse (item v items) = elim (scalar_of v >>= parse) [
  | none ↦ refused (line_of v)
  | some bit ↦ elim (read_bits parse items) [
    | refused line ↦ refused line
    | reading bits ↦ reading (bit ∷ bits)
  ]
]

abbrev pub listed : (Text → Option ℕ) → (List ℕ → Condition) → Node → Reading Condition
listed parse make n = elim (read_bits parse (as_list n)) [
  | refused line ↦ refused line
  | reading bits ↦ reading (make bits)
]

-- `kBoolConds`
abbrev pub bool_conds : List (String × ℕ)
bool_conds =
    ("roaming", Feat.roaming)
    ∷ ("home_plmn", Feat.home_plmn)
    ∷ ("roaming_partner", Feat.roaming_partner)
    ∷ ("roaming_allowed", Feat.roaming_allowed)
    ∷ ("imei_known", Feat.imei_known)
    ∷ ("imei_blocked", Feat.imei_blocked)
    ∷ ("tethering_detected", Feat.tethering_detected)
    ∷ ("tethering_allowed", Feat.tethering_allowed)
    ∷ ("emergency", Feat.emergency)
    ∷ ("quota_exhausted", Feat.quota_exhausted)
    ∷ ("period_expired", Feat.period_expired)
    ∷ ("requested_gbr", Feat.requested_gbr)
    ∷ []

unfoldable pub bool_bit : Text → List (String × ℕ) → Option ℕ
unfolding text_eq
bool_bit key [] = none
bool_bit key ((name, bit) ∷ conds) =
    let rest = bool_bit key conds in if text_eq key (codes name) then some bit else rest

abbrev pub rat_bit : Text → Option ℕ
rat_bit s = parse_rat s >>= λ rat. some (Feat.rat_base + rat)

abbrev pub dnn_bit : RuleSet → Text → Option ℕ
dnn_bit rs s = index_of s rs.dnn_names >>= λ i. some (Feat.dnn_base + i)

abbrev both : Option ℕ → Option ℕ → Option (ℕ × ℕ)
both (some s) (some e) = some (s, e)
both _ _ = none

module _ {D : Type 0} (lib : Libc D) where
  unfoldable pub read_usage : Node → Bool → Reading Condition
  unfolding as_permille
  read_usage n above = elim (as_permille lib n) [
    | none ↦ refused (line_of n)
    | some p ↦ reading (usage p above)
  ]

  unfoldable pub read_time : Node → Bool → Reading Condition
  unfolding find as_time_of_day
  read_time n inside =
      elim (both (find n "start" >>= as_time_of_day lib) (find n "end" >>= as_time_of_day lib)) [
        | none ↦ refused (line_of n)
        | some (s, e) ↦ reading (time s e inside)
      ]

  unfoldable pub read_condition : RuleSet → Text → Node → Reading Condition
  unfolding bool_bit text_eq as_bool read_bits parse_status parse_rat index_of read_usage read_time
  read_condition rs key n = elim (bool_bit key bool_conds) [
    | some bit ↦ elim (as_bool n) [
      | none ↦ refused (line_of n)
      | some want ↦ reading (flag bit want)
    ]
    | none ↦
        if text_eq key (codes "status")
        then listed parse_status one_of n
        else if text_eq key (codes "rat")
        then listed rat_bit one_of n
        else if text_eq key (codes "not_rat")
        then listed rat_bit none_of n
        else if text_eq key (codes "dnn")
        then listed (dnn_bit rs) one_of n
        else if text_eq key (codes "not_dnn")
        then listed (dnn_bit rs) none_of n
        else if text_eq key (codes "usage_above")
        then read_usage n true
        else if text_eq key (codes "usage_below")
        then read_usage n false
        else if text_eq key (codes "time_between")
        then read_time n true
        else if text_eq key (codes "not_time_between")
        then read_time n false
        else refused (line_of n)
  ]

  -- one round of the loop of `compile_when`
  unfoldable pub compile_field : Compiler → Pairs → Text → Node → Outcome Pairs
  unfolding read_condition compile_condition err
  compile_field c ms key n = elim (read_condition c.rs key n) [
    | refused line ↦ fail c line
    | reading condition ↦ elim (compile_condition c.rs ms condition) [
      | none ↦ fail c (line_of n)
      | some (rs, ms') ↦ succeed (record c { rs = rs }) ms'
    ]
  ]

  unfoldable pub compile_fields : Compiler → Pairs → Fields → Outcome Pairs
  unfolding compile_field
  compile_fields c ms no_field = succeed c ms
  compile_fields c ms (field key n fields) =
      compile_field c ms key n and_then λ c' ms'. compile_fields c' ms' fields

  unfoldable pub compile_when : Compiler → Node → Pairs → Outcome Pairs
  unfolding compile_fields err
  compile_when c (mapping line fields) ms = compile_fields c ms fields
  compile_when c n ms = fail c (line_of n)
