-- ===== src/Engine/Fires.antt =====
-- Which rule fires, written down without the scan and the plan bits of src/engine.cpp, and that it is
-- the one that the scan gives.
use real_time_policy_authori.Common.{
  ℕ, ◌^◌, ◌<◌, ◌≡◌, ◌⊎◌, ◌↔◌, true, Option, none, some, List, [], ◌∷◌, ◌++◌, arith, bit_and,
}
use native.Mathlib.Nat.{one-le-pow}
use real_time_policy_authori.Common.Bits.{test_bit, bit_and-pow, bit_and-zero}
use real_time_policy_authori.Rules.{CompiledRule}
use real_time_policy_authori.Store.{SubscriberRecord}
use real_time_policy_authori.Engine.{has, plan_bit_for, first_hit, matches}
use real_time_policy_authori.Engine.Scan.{NoneMatch, IsFirst, first_hit-IsFirst}

-- the subscriber is known and has one of the first 32 plans, which the mask names
abbrev pub IsInPlans : ℕ → Option SubscriberRecord → Type 0
IsInPlans mask none = ⊥
IsInPlans mask (some r) = (r.plan_id < 32) × (test_bit mask r.plan_id ≡ true)

-- The rule applies: the word has the rule's value under its mask, and the rule is for every plan or
-- for the subscriber's.
abbrev pub Applies : ℕ → Option SubscriberRecord → CompiledRule → Type 0
Applies f rec r =
    (bit_and f r.match_mask ≡ r.match_value) × ((r.plan_mask ≡ 0) ⊎ IsInPlans r.plan_mask rec)

abbrev pub NoneApplies : ℕ → Option SubscriberRecord → List CompiledRule → Type 0
NoneApplies f rec [] = Unit
NoneApplies f rec (r ∷ rs) = (¬ Applies f rec r) × NoneApplies f rec rs

-- The rule of the table that fires: one that applies, with none before it that does, or none where
-- no rule of the table applies.
abbrev pub Fires : ℕ → Option SubscriberRecord → List CompiledRule → Option CompiledRule → Type 0
Fires f rec rules none = NoneApplies f rec rules
Fires f rec rules (some r) =
    (before : List CompiledRule) × (after : List CompiledRule) × (rules ≡ before ++ r ∷ after)
    × NoneApplies f rec before
    × Applies f rec r

pub has-bit : (x k : ℕ) → has x (2 ^ k) ≡ test_bit x k
has-bit x k = ground (arith, bit_and-pow k x, one-le-pow k 2 (omega arith))

matches-Applies :
    (r : CompiledRule) (f : ℕ) (rec : Option SubscriberRecord)
    → (matches r f (plan_bit_for rec) ≡ true) ↔ Applies f rec r
unfolding matches plan_bit_for
matches-Applies r f none = ground (arith, bit_and-zero r.plan_mask)
matches-Applies r f (some s) =
    ground (arith, bit_and-zero r.plan_mask, has-bit r.plan_mask s.plan_id)

NoneMatch-NoneApplies :
    (rules : List CompiledRule) (f : ℕ) (rec : Option SubscriberRecord)
    → NoneMatch rules f (plan_bit_for rec)
    → NoneApplies f rec rules
NoneMatch-NoneApplies [] f rec h = tt
NoneMatch-NoneApplies (r ∷ rules) f rec (miss, h) =
    (λ applies. cc (miss, (matches-Applies r f rec).1 applies), NoneMatch-NoneApplies rules f rec h)

IsFirst-Fires :
    (rules : List CompiledRule) (f : ℕ) (rec : Option SubscriberRecord) (hit : Option CompiledRule)
    → IsFirst rules f (plan_bit_for rec) hit
    → Fires f rec rules hit
unfolding IsFirst
IsFirst-Fires rules f rec none h = NoneMatch-NoneApplies rules f rec h
IsFirst-Fires rules f rec (some r) h =
    (h.0, h.1, h.2, NoneMatch-NoneApplies h.0 f rec h.3, (matches-Applies r f rec).0 h.4)

-- The scan gives the rule that fires.
pub first_hit-Fires :
    (rules : List CompiledRule) (f : ℕ) (rec : Option SubscriberRecord)
    → Fires f rec rules (first_hit rules f (plan_bit_for rec))
first_hit-Fires rules f rec =
    IsFirst-Fires rules f rec _ (first_hit-IsFirst rules f (plan_bit_for rec))
