-- ===== src/Probe/Pow2.antt =====
-- `while (p < n) p <<= 1` on a 64-bit `size_t`: `next_pow2` and the sizing loop of
-- `FlatSet64::rebuild`. 60 rounds take 8 to 2 ^ 63; from there on the shift drops the only bit.
use native.Mathlib.Nat.{pow-suc, pow-le-pow_right}
use real_time_policy_authori.Common.{
  ℕ, zero, suc, ◌+◌, ◌*◌, ◌%◌, ◌^◌, ◌<◌, ◌≤◌, ◌≡◌, ◌≢◌, ◌⊎◌, inl, inr, refl, ap, ◌∙◌, true, Option,
  none, some, arith, ltb, ltb→lt, if◌then◌else◌, Bool-cases,
}

-- `none` means that the loop has not ended after `fuel` rounds.
unfoldable pub double_until : ℕ → ℕ → ℕ → Option ℕ
double_until zero p n = none
double_until (suc fuel) p n =
    let rest = double_until fuel (p * 2 % 2 ^ 64) n in if ltb p n then rest else some p

-- `next_pow2`; it does not return if `n` is above 2 ^ 63
unfoldable pub next_pow2 : ℕ → Option ℕ
unfolding double_until
next_pow2 n = double_until 62 8 n

-- a power of two that is at least 8 and `n`, and no larger than it has to be
pub record Rounds (n p : ℕ) : Type 0 where
  pub exponent : ℕ
  pub is_pow : p ≡ 2 ^ exponent
  pub at_least : 3 ≤ exponent
  pub covers : n ≤ p
  pub tight : (p ≡ 8) ⊎ (p < 2 * n)
  pub fits : p ≤ 2 ^ 63

double_until_more :
    (n fuel p : ℕ) {q : ℕ}
    → ltb p n ≡ true
    → p * 2 % 2 ^ 64 ≡ q
    → double_until (suc fuel) p n ≡ double_until fuel q n
unfolding double_until
double_until_more n fuel p more step = rw (more, step)

double_until_lem :
    (n fuel e : ℕ)
    → n ≤ 2 ^ 63
    → 3 ≤ e
    → e ≤ 63
    → 63 < e + fuel
    → (2 ^ e ≡ 8) ⊎ (2 ^ e < 2 * n)
    → (p : ℕ) × (double_until fuel (2 ^ e) n ≡ some p) × Rounds n p
unfolding double_until
double_until_lem n zero e hn lo hi enough tight = absurd (omega arith)
double_until_lem n (suc fuel) e hn lo hi enough tight = elim (Bool-cases (ltb (2 ^ e) n)) [
  | inl more ↦
      let below : 2 ^ e < n = ltb→lt _ _ more in
      let room : e ≢ 63 =
        λ top. let peak : 2 ^ e ≡ 2 ^ 63 = ap (λ (t : ℕ). 2 ^ t) top in omega arith in
      let small = pow-le-pow_right {n = 2} (omega arith) {i = suc e} {j = 63} (omega arith) in
      let step : 2 ^ e * 2 % 2 ^ 64 ≡ 2 ^ suc e = omega (arith, pow-suc 2 e) in
      let (p, run, r) =
        double_until_lem n fuel (suc e) hn (omega arith) (omega arith) (omega arith)
          (inr (omega (arith, pow-suc 2 e))) in
      (p, double_until_more n fuel (2 ^ e) more step ∙ run, r)
  | inr done ↦ (
    2 ^ e,
    rw done refl,
    record {
      exponent = e;
      is_pow = refl;
      at_least = lo;
      covers = ground arith;
      tight = tight;
      fits = pow-le-pow_right {n = 2} (omega arith) {i = e} {j = 63} hi;
    },
  )
]

pub double_until_ends : (n : ℕ) → n ≤ 2 ^ 63 → (p : ℕ) × (double_until 62 8 n ≡ some p) × Rounds n p
double_until_ends n h =
    double_until_lem n 62 3 h (omega arith) (omega arith) (omega arith) (inl refl)

-- `next_pow2` returns the least power of two that is at least 8 and `n`, for every `n` up to 2 ^ 63.
pub next_pow2-Rounds : (n : ℕ) → n ≤ 2 ^ 63 → (p : ℕ) × (next_pow2 n ≡ some p) × Rounds n p
unfolding next_pow2
next_pow2-Rounds n h = double_until_ends n h
