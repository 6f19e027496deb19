-- ===== src/FlatSet/Tests.antt =====
-- A set of three keys, one of them twice and one of them 0.
use real_time_policy_authori.Common.{ℕ, ◌≡◌, refl, some, List, [], ◌∷◌, arith}
use real_time_policy_authori.FlatSet.{FlatSet64, rebuild}
use real_time_policy_authori.FlatSet.Refines.{Refines, distinct, rebuild-Refines}

abbrev keys : List ℕ
keys = 310260 ∷ 0 ∷ 208001 ∷ 310260 ∷ []

rebuild-Refines_example : (s : FlatSet64) × (rebuild keys ≡ some s) × Refines keys s
rebuild-Refines_example = rebuild-Refines keys (omega arith)

-- its size is 2
two_keys : distinct [] keys ≡ 2
two_keys = refl
