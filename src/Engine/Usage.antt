-- ===== src/Engine/Usage.antt =====
-- `usage_at_least_permille`, in the form for compilers with a 128-bit type and in the other.
use real_time_policy_authori.Common.{
  ℕ, ◌+◌, ◌*◌, ◌/◌, ◌%◌, ◌^◌, ◌<◌, ◌≤◌, ◌≡◌, ◌≢◌, ◌↔◌, ap, Bool, true, false, ◌==◌, leb,
  if◌then◌else◌, arith,
}

unfoldable pub usage_at_least_permille : ℕ → ℕ → ℕ → Bool
usage_at_least_permille usage quota permille =
    if quota == 0 then false else leb (quota * permille % 2 ^ 128) (usage * 1000 % 2 ^ 128)

unfoldable pub usage_at_least_fallback : ℕ → ℕ → ℕ → Bool
usage_at_least_fallback usage quota permille =
    if quota == 0
    then false
    else (let whole = quota / 1000 * permille % 2 ^ 64 in
        let remainder = quota % 1000 * permille % 2 ^ 64 / 1000 in
        leb ((whole + remainder) % 2 ^ 64) usage)

spread : (a r p : ℕ) → (1000 * a + r) * p ≡ 1000 * (a * p) + r * p
spread a r p = grind arith

module _ (usage quota permille : ℕ) (hu : usage < 2 ^ 64) (hq : quota < 2 ^ 64)
    (hp : permille < 2 ^ 32) where
  product-lt : quota * permille < 2 ^ 96
  product-lt = grind arith

  -- On 64-bit counters the 128-bit comparison is exact: it is true exactly if the quota is not 0 and
  -- usage / quota is at least permille / 1000.
  pub usage_at_least_permille-exact :
      (usage_at_least_permille usage quota permille ≡ true)
      ↔ ((quota ≢ 0) × (quota * permille ≤ usage * 1000))
  unfolding usage_at_least_permille
  usage_at_least_permille-exact = ground (arith, product-lt)

  split_lem : quota / 1000 * permille + quota % 1000 * permille / 1000 ≡ quota * permille / 1000
  split_lem =
      let parts : quota ≡ 1000 * (quota / 1000) + quota % 1000 = omega arith in
      let product = ap (λ (t : ℕ). t * permille) parts in
      omega (arith, product, spread (quota / 1000) (quota % 1000) permille)

  remainder-lt : quota % 1000 * permille < 2 ^ 64
  remainder-lt = grind arith

  -- The form without a 128-bit type compares the usage with the share of the quota rounded down,
  -- where that share fits 64 bits. So the two forms differ exactly where the usage is that share and
  -- something was rounded off: the fallback then reports a threshold that has not been reached.
  pub usage_at_least_fallback_lem :
      quota * permille / 1000 < 2 ^ 64
      → ((usage_at_least_fallback usage quota permille ≡ true)
          ↔ ((quota ≢ 0) × (quota * permille / 1000 ≤ usage)))
        × ((usage_at_least_fallback usage quota permille
              ≢ usage_at_least_permille usage quota permille)
            ↔ ((quota ≢ 0) × (usage ≡ quota * permille / 1000) × (quota * permille % 1000 ≢ 0)))
  unfolding usage_at_least_permille usage_at_least_fallback
  usage_at_least_fallback_lem fits =
      (ground (arith, split_lem, remainder-lt), ground (arith, split_lem, remainder-lt, product-lt))
