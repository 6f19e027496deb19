-- ===== src/Rules/Order.antt =====
-- src/rules.cpp, `sort_and_check`: the order of the table, and the search for rules that an earlier
-- rule covers. `std::stable_sort` is the insertion sort that keeps equal priorities in file order. A
-- warning is the pair of the ids it names.
use real_time_policy_authori.Common.{
  ℕ, ◌-◌, ◌^◌, Bool, not, ◌&&◌, ◌||◌, Option, none, some, List, [], ◌∷◌, ◌++◌, ◌==◌, leb,
  if◌then◌else◌, bit_and,
}
use real_time_policy_authori.Rules.{CompiledRule}

unfoldable pub insert_rule : CompiledRule → List CompiledRule → List CompiledRule
insert_rule r [] = r ∷ []
insert_rule r (q ∷ rules) =
    let rest = insert_rule r rules in if leb r.priority q.priority then r ∷ q ∷ rules else q ∷ rest

unfoldable pub stable_sort : List CompiledRule → List CompiledRule
stable_sort [] = []
stable_sort (r ∷ rules) = insert_rule r (stable_sort rules)

-- `~x` on 32 bits
abbrev pub complement : ℕ → ℕ
complement x = 2 ^ 32 - 1 - x

-- `a`, which comes first, leaves nothing to `b`
unfoldable pub shadows : CompiledRule → CompiledRule → Bool
shadows a b =
    not (a.id == b.id)
    && (bit_and b.match_mask a.match_mask == a.match_mask)
    && (bit_and b.match_value a.match_mask == a.match_value)
    && not (
        not (a.plan_mask == 0)
        && (b.plan_mask == 0 || not (bit_and b.plan_mask (complement a.plan_mask) == 0)))

-- the inner loop, over the rules before `b`
unfoldable pub shadow_of : List CompiledRule → CompiledRule → Option CompiledRule
shadow_of [] b = none
shadow_of (a ∷ earlier) b = let rest = shadow_of earlier b in if shadows a b then some a else rest

-- the outer loop
unfoldable pub shadow_warnings : List CompiledRule → List CompiledRule → List (ℕ × ℕ)
shadow_warnings earlier [] = []
shadow_warnings earlier (b ∷ rules) =
    let rest = shadow_warnings (earlier ++ b ∷ []) rules in
    elim (shadow_of earlier b) [ none ↦ rest | some a ↦ (b.id, a.id) ∷ rest ]
