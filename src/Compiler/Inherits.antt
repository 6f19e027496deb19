-- ===== src/Compiler/Inherits.antt =====
-- src/rules.cpp, `parse_action`: what a rule sets itself is not left to the plan.
use Prim.Native.String.{String}
use real_time_policy_authori.Common.{
  ℕ, ◌-◌, ◌^◌, ◌<◌, ◌≡◌, true, false, some, arith, Bool-cases, inl, inr,
}
use real_time_policy_authori.Common.Bits.{test_bit, test_bit-complement, test_bit-pow}
use real_time_policy_authori.Rules.{Action}
use real_time_policy_authori.Yaml.{Node, is_map, find, has, Libc}
use real_time_policy_authori.Compiler.{Compiler, Outcome, ◌and_then◌, succeed, check_unknown_keys}
use real_time_policy_authori.Compiler.Actions.{
  action_keys, set_verdict, set_reason, set_inherit, set_5qi, check_5qi, set_arp, complete_qos,
  set_ambr_ul, set_ambr_dl, check_ambr, set_quota, set_validity, set_rating_group, parse_action,
}
use real_time_policy_authori.Compiler.Outcomes.{
  Holds, failed, done, Holds-value, store_member-makes,
}
use real_time_policy_authori.Compiler.Clears.{
  Any, Clear, after_5qi, after_ambr, after_ambr_of, after_qos, after_qos_of, after_rating,
  after_validity, any_quiet, clears, end_of, keep, make, validity-Keeps,
}

-- The members that an action may set itself, each with the bit that would leave it to the plan.
pub data Member : Type 0 where
  own_5qi : Member
  own_arp : Member
  own_ambr_ul : Member
  own_ambr_dl : Member
  own_quota : Member
  own_validity : Member
  own_rating_group : Member

abbrev pub key_of : Member → String
key_of own_5qi = "qos_5qi"
key_of own_arp = "arp"
key_of own_ambr_ul = "ambr_ul"
key_of own_ambr_dl = "ambr_dl"
key_of own_quota = "quota"
key_of own_validity = "quota_validity"
key_of own_rating_group = "rating_group"

abbrev pub inherit_bit : Member → ℕ
inherit_bit own_5qi = 0
inherit_bit own_arp = 0
inherit_bit own_ambr_ul = 1
inherit_bit own_ambr_dl = 1
inherit_bit own_quota = 2
inherit_bit own_validity = 2
inherit_bit own_rating_group = 3

own_bit : (i : ℕ) → 2 ^ i < 2 ^ 8 → i < 8 → test_bit (2 ^ 8 - 1 - 2 ^ i) i ≡ false
own_bit i small lt = ground (arith, test_bit-complement 8 (2 ^ i) i small, test_bit-pow i i)

module _ {D : Type 0} (lib : Libc D) (n : Node) where
  abbrev started : Compiler → Action → Outcome Action
  started c a =
      succeed (check_unknown_keys c n action_keys) a
      and_then set_verdict n
      and_then set_reason n
      and_then set_inherit n

  abbrev before_check : Outcome Action → Outcome Action
  before_check x =
      x
      and_then set_5qi lib n
      and_then check_5qi n
      and_then set_arp lib n
      and_then complete_qos n
      and_then set_ambr_ul lib n
      and_then set_ambr_dl lib n

  abbrev after_set : Outcome Action → Outcome Action
  after_set x = before_check x and_then check_ambr n

  -- The member is there: the step that reads it clears its bit.
  chain :
      (x : Outcome Action) (m : Member)
      → has n (key_of m) ≡ true
      → Holds Any (Clear lib n (inherit_bit m)) (
          end_of lib n (inherit_bit m) (
            after_ambr_of lib n (inherit_bit m) (
              after_qos_of lib n
                (inherit_bit m)
                (x and_then set_5qi lib n and_then check_5qi n and_then set_arp lib n))
            and_then set_rating_group lib n))
  unfolding has set_5qi set_arp check_ambr set_quota set_validity set_rating_group
  chain x own_5qi h = after_5qi lib n 0 (x and_then set_5qi lib n) (
      make lib n 0 x λ c a.
        store_member-makes any_quiet _ _ (find n "qos_5qi") c a h tt
          λ v y e. clears a.inherit_mask 0 _ (own_bit 0 (omega arith) (omega arith)))
  chain x own_arp h =
      after_qos lib n 0 (x and_then set_5qi lib n and_then check_5qi n and_then set_arp lib n) (
        make lib n 0 (x and_then set_5qi lib n and_then check_5qi n) λ c a.
          store_member-makes any_quiet _ _ (find n "arp") c a h tt
            λ v y e. clears a.inherit_mask 0 _ (own_bit 0 (omega arith) (omega arith)))
  chain x own_ambr_ul h = after_ambr lib n 1 (after_set x) (
      make lib n 1 (before_check x) λ c a. elim (Bool-cases (has n "ambr_dl")) [
        | inl e ↦
            rw (h, e) (done tt (clears a.inherit_mask 1 _ (own_bit 1 (omega arith) (omega arith))))
        | inr e ↦ rw (h, e) (failed tt)
      ])
  chain x own_ambr_dl h = after_ambr lib n 1 (after_set x) (
      make lib n 1 (before_check x) λ c a. elim (Bool-cases (has n "ambr_ul")) [
        | inl e ↦
            rw (h, e) (done tt (clears a.inherit_mask 1 _ (own_bit 1 (omega arith) (omega arith))))
        | inr e ↦ rw (h, e) (failed tt)
      ])
  chain x own_quota h =
      after_validity lib n 2 (after_set x and_then set_quota lib n and_then set_validity lib n) (
        keep lib n 2 (after_set x and_then set_quota lib n)
          (make lib n 2 (after_set x) λ c a.
            store_member-makes any_quiet _ _ (find n "quota") c a h tt
              λ v y e. clears a.inherit_mask 2 _ (own_bit 2 (omega arith) (omega arith)))
          (validity-Keeps lib n 2))
  chain x own_validity h =
      after_validity lib n 2 (after_set x and_then set_quota lib n and_then set_validity lib n) (
        make lib n 2 (after_set x and_then set_quota lib n) λ c a.
          store_member-makes any_quiet _ _ (find n "quota_validity") c a h tt
            λ v y e. clears a.inherit_mask 2 _ (own_bit 2 (omega arith) (omega arith)))
  chain x own_rating_group h =
      after_rating lib n 3
        (after_set x
          and_then set_quota lib n
          and_then set_validity lib n
          and_then set_rating_group lib n)
        (make lib n 3 (after_set x and_then set_quota lib n and_then set_validity lib n) λ c a.
          store_member-makes any_quiet _ _ (find n "rating_group") c a h tt
            λ v y e. clears a.inherit_mask 3 _ (own_bit 3 (omega arith) (omega arith)))

-- What an action of a rule sets itself is not left to the plan: where such a member is there and the
-- action is accepted, the bit of the mask that would inherit it is clear, whatever `inherit` says.
pub parse_action-owns :
    {D : Type 0} (lib : Libc D) (c c' : Compiler) (n : Node) (a a' : Action) (m : Member)
    → has n (key_of m) ≡ true
    → parse_action lib c n a ≡ (c', some a')
    → test_bit a'.inherit_mask (inherit_bit m) ≡ false
unfolding parse_action
parse_action-owns lib c c' n a a' m there accepted =
    Holds-value
      (elim (Bool-cases (is_map n))
        as (λ _. Holds Any (Clear lib n (inherit_bit m)) (parse_action lib c n a)) [
          | inr e ↦ rw e (failed tt)
          | inl e ↦ rw e (chain lib n (started lib n c a) m there)
        ])
      c' a' accepted
