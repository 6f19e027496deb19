-- ===== src/Engine/Scan.antt =====
-- The scan stops at the first rule that matches, and what that means for a sorted table.
use real_time_policy_authori.Common.{
  ℕ, ◌≡◌, inl, inr, refl, true, false, Option, none, some, List, [], ◌∷◌, ◌++◌, ap, Bool-cases,
}
use real_time_policy_authori.Rules.{CompiledRule}
use real_time_policy_authori.Engine.{matches, first_hit}

-- no rule of the list matches
abbrev pub NoneMatch : List CompiledRule → ℕ → ℕ → Type 0
NoneMatch [] f pb = Unit
NoneMatch (r ∷ rs) f pb = (matches r f pb ≡ false) × NoneMatch rs f pb

-- What the scan returned, stated without the scan: a rule that matches, with none before it that
-- does, or nothing where none matches.
unfoldable pub IsFirst : List CompiledRule → ℕ → ℕ → Option CompiledRule → Type 0
IsFirst rules f pb none = NoneMatch rules f pb
IsFirst rules f pb (some r) =
    (before : List CompiledRule) × (after : List CompiledRule) × (rules ≡ before ++ r ∷ after)
    × NoneMatch before f pb
    × (matches r f pb ≡ true)

-- The scan returns the first rule that matches, and nothing exactly where none does.
pub first_hit-IsFirst :
    (rules : List CompiledRule) (f pb : ℕ) → IsFirst rules f pb (first_hit rules f pb)
unfolding first_hit IsFirst
first_hit-IsFirst [] f pb = tt
first_hit-IsFirst (r ∷ rules) f pb = elim (Bool-cases (matches r f pb)) [
  | inl hit ↦ rw hit ([], rules, refl, tt, hit)
  | inr miss ↦
      rw miss (later r rules f pb miss (first_hit rules f pb) (first_hit-IsFirst rules f pb))
]
  where
    later :
        (r : CompiledRule) (rules : List CompiledRule) (f pb : ℕ)
        → matches r f pb ≡ false
        → (hit : Option CompiledRule) → IsFirst rules f pb hit
        → IsFirst (r ∷ rules) f pb hit
    later r rules f pb miss none h = (miss, h)
    later r rules f pb miss (some q) h = (r ∷ h.0, h.1, ap (λ t. r ∷ t) h.2, (miss, h.3), h.4)
