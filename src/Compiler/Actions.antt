-- ===== src/Compiler/Actions.antt =====
-- src/rules.cpp, `parse_action`: one function per member of the mapping, in the order of the code. An
-- action that is refused is `none`: the code leaves a half-written one, in a rule set that it drops.
use Prim.Native.String.{String}
use real_time_policy_authori.Common.{
  ℕ, ◌-◌, ◌^◌, not, ◌&&◌, ◌||◌, Option, none, some, List, [], ◌∷◌, ltb, ◌==◌, if◌then◌else◌,
  bit_and, bit_or,
}
use real_time_policy_authori.FlatSet.{◌>>=◌}
use real_time_policy_authori.Rules.{Action, Text}
use real_time_policy_authori.Rules.Feat
use real_time_policy_authori.Yaml.{
  Node, Items, no_item, item, line_of, is_map, scalar_of, find, has, Libc, as_uint, as_kbps,
  as_bytes, as_seconds,
}
use real_time_policy_authori.Compiler.{
  Compiler, Outcome, ◌and_then◌, fail, succeed, err, warn, unusual_5qi, half_of_qos, lookup_name,
  check_unknown_keys, as_list,
}
use real_time_policy_authori.Compiler.Names.{
  parse_verdict, parse_reason, parse_decision_flag, parse_inherit, is_standardized_5qi,
}

-- what was read is stored; what cannot be read is an error at its line
abbrev pub store_read : {A B : Type 0} → (B → A → A) → ℕ → Option B → Compiler → A → Outcome A
store_read store line none c a = fail c line
store_read store line (some x) c a = succeed c (store x a)

-- a member that is absent leaves the value
abbrev pub store_member :
    {A B : Type 0} → (Node → Option B) → (B → A → A) → Option Node → Compiler → A → Outcome A
store_member read store none c a = succeed c a
store_member read store (some v) c a = store_read store (line_of v) (read v) c a

abbrev pub member :
    {A B : Type 0} → Node → String → (Node → Option B) → (B → A → A) → Compiler → A → Outcome A
member n key read store = store_member read store (find n key)

-- `mask & ~bit`, on 8 bits
abbrev pub drop_inherit : ℕ → Action → Action
drop_inherit bit a = record a { inherit_mask = bit_and a.inherit_mask (2 ^ 8 - 1 - bit) }

-- the `|` of the names in a list, or the line of one that is unknown
unfoldable pub or_names : (Text → Option ℕ) → Items → ℕ → Compiler → Outcome ℕ
or_names parse no_item mask c = succeed c mask
or_names parse (item v items) mask c = elim (scalar_of v >>= parse) [
  | none ↦ fail c (line_of v)
  | some bit ↦ or_names parse items (bit_or mask bit) c
]

-- a member that is a name or a list of names, whose bits are added to `mask`
abbrev pub read_names :
    (Text → Option ℕ) → Option Node → ℕ → (ℕ → Action → Action) → Compiler → Action → Outcome Action
read_names parse none mask store c a = succeed c a
read_names parse (some v) mask store c a =
    or_names parse (as_list v) mask c and_then λ c mask. succeed c (store mask a)

abbrev pub between : ℕ → ℕ → Option ℕ → Option ℕ
between least greatest o = o >>= λ v. if ltb v least || ltb greatest v then none else some v

unfoldable pub set_verdict : Node → Compiler → Action → Outcome Action
unfolding find parse_verdict
set_verdict n =
    member n "verdict" (λ v. scalar_of v >>= parse_verdict) (λ x a. record a { verdict = x })

unfoldable pub set_reason : Node → Compiler → Action → Outcome Action
unfolding find parse_reason
set_reason n =
    member n "reason" (λ v. scalar_of v >>= parse_reason) (λ x a. record a { reason = x })

unfoldable pub set_inherit : Node → Compiler → Action → Outcome Action
unfolding find parse_inherit or_names
set_inherit n c a =
    read_names parse_inherit (find n "inherit") 0 (λ mask a. record a { inherit_mask = mask }) c a

-- the warning, of a 5QI that has no standardized meaning and is not an operator's own
unfoldable pub check_5qi : Node → Compiler → Action → Outcome Action
unfolding has is_standardized_5qi warn
check_5qi n c a =
    if has n "qos_5qi" && not (is_standardized_5qi a.qos_5qi) && ltb a.qos_5qi 128
    then succeed (warn c (unusual_5qi a.qos_5qi)) a
    else succeed c a

-- one of the two without the other
unfoldable pub complete_qos : Node → Compiler → Action → Outcome Action
unfolding has warn
complete_qos n c a =
    if has n "qos_5qi"
    then (if has n "arp"
        then succeed c a
        else succeed (warn c (half_of_qos (line_of n))) (record a { arp = 8 }))
    else (if has n "arp"
        then succeed (warn c (half_of_qos (line_of n))) (record a { qos_5qi = 9 })
        else succeed c a)

unfoldable pub check_ambr : Node → Compiler → Action → Outcome Action
unfolding has err
check_ambr n c a =
    if has n "ambr_ul"
    then (if has n "ambr_dl"
        then succeed c (drop_inherit Feat.inherit_ambr a)
        else fail c (line_of n))
    else (if has n "ambr_dl" then fail c (line_of n) else succeed c a)

unfoldable pub set_redirect : Node → Compiler → Action → Outcome Action
unfolding find lookup_name err
set_redirect n c a =
    member n "redirect" (λ v. scalar_of v >>= lookup_name c.redirect_ids)
      (λ x a. record a { redirect_id = x }) c a

unfoldable pub check_redirect : Node → Compiler → Action → Outcome Action
unfolding err
check_redirect n c a =
    if a.verdict == 2 && a.redirect_id == 0 then fail c (line_of n) else succeed c a

unfoldable pub set_flags : Node → Compiler → Action → Outcome Action
unfolding find parse_decision_flag or_names
set_flags n c a =
    read_names parse_decision_flag (find n "flags") a.set_flags
      (λ mask a. record a { set_flags = mask }) c a

abbrev pub action_keys : List String
action_keys =
    "verdict" ∷ "reason" ∷ "qos_5qi" ∷ "arp" ∷ "ambr_ul" ∷ "ambr_dl" ∷ "rating_group" ∷ "quota"
    ∷ "quota_validity" ∷ "redirect" ∷ "flags" ∷ "inherit" ∷ []

module _ {D : Type 0} (lib : Libc D) where
  unfoldable pub set_5qi : Node → Compiler → Action → Outcome Action
  unfolding find as_uint
  set_5qi n =
      member n "qos_5qi" (λ v. between 1 255 (as_uint lib v))
        λ x a. drop_inherit Feat.inherit_qos (record a { qos_5qi = x })

  unfoldable pub set_arp : Node → Compiler → Action → Outcome Action
  unfolding find as_uint
  set_arp n =
      member n "arp" (λ v. between 1 15 (as_uint lib v))
        λ x a. drop_inherit Feat.inherit_qos (record a { arp = x })

  unfoldable pub set_ambr_ul : Node → Compiler → Action → Outcome Action
  unfolding find as_kbps
  set_ambr_ul n = member n "ambr_ul" (as_kbps lib) (λ x a. record a { ambr_ul_kbps = x })

  unfoldable pub set_ambr_dl : Node → Compiler → Action → Outcome Action
  unfolding find as_kbps
  set_ambr_dl n = member n "ambr_dl" (as_kbps lib) (λ x a. record a { ambr_dl_kbps = x })

  unfoldable pub set_quota : Node → Compiler → Action → Outcome Action
  unfolding find as_bytes
  set_quota n =
      member n "quota" (as_bytes lib)
        λ x a. drop_inherit Feat.inherit_quota (record a { quota_bytes = x })

  unfoldable pub set_validity : Node → Compiler → Action → Outcome Action
  unfolding find as_seconds
  set_validity n =
      member n "quota_validity" (as_seconds lib)
        λ x a. drop_inherit Feat.inherit_quota (record a { quota_validity_s = x })

  unfoldable pub set_rating_group : Node → Compiler → Action → Outcome Action
  unfolding find as_uint
  set_rating_group n =
      member n "rating_group" (λ v. between 0 (2 ^ 32 - 1) (as_uint lib v))
        λ x a. drop_inherit Feat.inherit_rating_group (record a { rating_group = x })

  unfoldable pub parse_action : Compiler → Node → Action → Outcome Action
  unfolding check_unknown_keys set_verdict set_reason set_inherit set_5qi check_5qi set_arp
      complete_qos set_ambr_ul set_ambr_dl check_ambr set_quota set_validity set_rating_group
      set_redirect check_redirect set_flags err
  parse_action c n a =
      if not (is_map n)
      then fail c (line_of n)
      else (succeed (check_unknown_keys c n action_keys) a
          and_then set_verdict n
          and_then set_reason n
          and_then set_inherit n
          and_then set_5qi n
          and_then check_5qi n
          and_then set_arp n
          and_then complete_qos n
          and_then set_ambr_ul n
          and_then set_ambr_dl n
          and_then check_ambr n
          and_then set_quota n
          and_then set_validity n
          and_then set_rating_group n
          and_then set_redirect n
          and_then check_redirect n
          and_then set_flags n)
