-- ===== src/Engine/Order.antt =====
-- The scan of the sorted table finds the matching rule of least priority, the first of the file
-- among equals.
use real_time_policy_authori.Common.{
  ℕ, ◌≤◌, ◌≡◌, refl, sym, ap, subst, inl, inr, ◌∙◌, Bool, true, false, Option, none, some, List, [],
  ◌∷◌, arith, leb, if◌then◌else◌, Bool-cases,
}
use real_time_policy_authori.Rules.{CompiledRule}
use real_time_policy_authori.Rules.Order.{insert_rule, stable_sort}
use real_time_policy_authori.Engine.{matches, first_hit}

-- The one of least priority, `r` where both have the same.
abbrev pub better : CompiledRule → Option CompiledRule → CompiledRule
better r none = r
better r (some q) = if leb r.priority q.priority then r else q

-- The rule that ought to fire, read off the rules in file order.
unfoldable pub best : List CompiledRule → ℕ → ℕ → Option CompiledRule
best [] f pb = none
best (r ∷ rules) f pb =
    let rest = best rules f pb in if matches r f pb then some (better r rest) else rest

-- `r` may stand before the rule that is found
abbrev pub AtMost : ℕ → Option CompiledRule → Type 0
AtMost n none = Unit
AtMost n (some q) = n ≤ q.priority

abbrev pub IsSorted : List CompiledRule → Type 0
IsSorted [] = Unit
IsSorted (r ∷ rules) = ((f pb : ℕ) → AtMost r.priority (first_hit rules f pb)) × IsSorted rules

AtMost-trans : (m n : ℕ) (o : Option CompiledRule) → m ≤ n → AtMost n o → AtMost m o
AtMost-trans m n none h k = tt
AtMost-trans m n (some q) h k = omega arith

cons-AtMost :
    (n : ℕ) (r : CompiledRule) (rules : List CompiledRule) (f pb : ℕ)
    → n ≤ r.priority
    → AtMost n (first_hit rules f pb)
    → AtMost n (first_hit (r ∷ rules) f pb)
unfolding first_hit
cons-AtMost n r rules f pb h k = elim (Bool-cases (matches r f pb)) [
  | inl hit ↦ rw hit h
  | inr miss ↦ rw miss k
]

-- what the scan finds after `r` is inserted
abbrev pub with_rule : Bool → CompiledRule → Option CompiledRule → Option CompiledRule
with_rule hit r o = if hit then some (better r o) else o

with_rule-AtMost :
    (hit : Bool) (n : ℕ) (r : CompiledRule) (o : Option CompiledRule)
    → n ≤ r.priority
    → AtMost n o
    → AtMost n (with_rule hit r o)
with_rule-AtMost true n r none h k = h
with_rule-AtMost true n r (some q) h k = ground arith
with_rule-AtMost false n r o h k = k

-- the scan over `r` and what follows it, where `r` may stand first
front_lem :
    (hit : Bool) (r : CompiledRule) (o : Option CompiledRule)
    → AtMost r.priority o
    → (if hit then some r else o) ≡ with_rule hit r o
front_lem true r none h = refl
front_lem true r (some q) h = ground arith
front_lem false r o h = refl

-- and where `q` stays in front of it
behind_lem :
    (hit hit' : Bool) (r q : CompiledRule) (o : Option CompiledRule)
    → leb r.priority q.priority ≡ false
    → (if hit' then some q else with_rule hit r o) ≡ with_rule hit r (if hit' then some q else o)
behind_lem true true r q o h = rw h refl
behind_lem true false r q o h = refl
behind_lem false hit' r q o h = refl

insert_hit :
    (r : CompiledRule) (rules : List CompiledRule) (f pb : ℕ)
    → IsSorted rules
    → first_hit (insert_rule r rules) f pb ≡ with_rule (matches r f pb) r (first_hit rules f pb)
unfolding first_hit insert_rule
insert_hit r [] f pb h = refl
insert_hit r (q ∷ rules) f pb h = elim (Bool-cases (leb r.priority q.priority)) [
  | inl le ↦
      let first =
        cons-AtMost r.priority q rules f pb (ground arith)
          (AtMost-trans r.priority q.priority (first_hit rules f pb) (ground arith) (h.0 f pb)) in
      rw le (front_lem (matches r f pb) r (first_hit (q ∷ rules) f pb) first)
  | inr gt ↦ rw gt (
      ap (λ (t : Option CompiledRule). if matches q f pb then some q else t)
        (insert_hit r rules f pb h.1)
      ∙ behind_lem (matches r f pb) (matches q f pb) r q (first_hit rules f pb) gt)
]

insert_rule-IsSorted :
    (r : CompiledRule) (rules : List CompiledRule) → IsSorted rules → IsSorted (insert_rule r rules)
unfolding insert_rule first_hit
insert_rule-IsSorted r [] h = ((λ f pb. tt), tt)
insert_rule-IsSorted r (q ∷ rules) h = elim (Bool-cases (leb r.priority q.priority)) [
  | inl le ↦ rw le (
    (λ f pb.
        cons-AtMost r.priority q rules f pb (ground arith)
          (AtMost-trans r.priority q.priority (first_hit rules f pb) (ground arith) (h.0 f pb))),
    h,
  )
  | inr gt ↦ rw gt (
    (λ f pb. subst (AtMost q.priority) (sym (insert_hit r rules f pb h.1)) (
        with_rule-AtMost (matches r f pb) q.priority r (first_hit rules f pb) (ground arith)
          (h.0 f pb))),
    insert_rule-IsSorted r rules h.1,
  )
]

pub stable_sort-IsSorted : (rules : List CompiledRule) → IsSorted (stable_sort rules)
unfolding stable_sort
stable_sort-IsSorted [] = tt
stable_sort-IsSorted (r ∷ rules) =
    insert_rule-IsSorted r (stable_sort rules) (stable_sort-IsSorted rules)

-- The scan of the sorted table returns, for every word and plan, the matching rule of least priority,
-- and among several of the same priority the one that the file has first.
pub first_hit-stable_sort :
    (rules : List CompiledRule) (f pb : ℕ) → first_hit (stable_sort rules) f pb ≡ best rules f pb
unfolding stable_sort best first_hit
first_hit-stable_sort [] f pb = refl
first_hit-stable_sort (r ∷ rules) f pb =
    insert_hit r (stable_sort rules) f pb (stable_sort-IsSorted rules)
    ∙ ap (with_rule (matches r f pb) r) (first_hit-stable_sort rules f pb)
