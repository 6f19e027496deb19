-- ===== src/Probe/Loop.antt =====
-- The probe loop, and what a write to the slot where it stopped does to other probes.
use real_time_policy_authori.Common.{
  ℕ, zero, suc, ◌+◌, ◌-◌, ◌<◌, ◌≡◌, ◌≢◌, ◌⊎◌, inl, inr, refl, Option, none, some, arith, ◌==◌, leb,
  if◌then◌else◌, bit_and, ◌^◌, Bool-cases, ==_iff,
}
use real_time_policy_authori.Common.Bits.{bit_and_low}
use native.Mathlib.Nat.{mod-eq_of_lt, mod_self}

-- `for (;;)` from index `i`: the index of the first slot that holds `key` or is empty. `none` means
-- that the loop is still running after `fuel` slots.
unfoldable pub probe : (ℕ → ℕ) → ℕ → ℕ → ℕ → ℕ → Option ℕ
probe at mask key zero i = none
probe at mask key (suc fuel) i =
    let rest = probe at mask key fuel (bit_and (i + 1) mask) in
    if at i == key then some i else if at i == 0 then some i else rest

-- a write of `v` at `p`
abbrev pub update : (ℕ → ℕ) → ℕ → ℕ → ℕ → ℕ
update at p v j = if j == p then v else at j

module _ (at : ℕ → ℕ) (mask key : ℕ) where
  -- where the loop stops
  pub probe-stop :
      (fuel i : ℕ) {p : ℕ} → probe at mask key fuel i ≡ some p → (at p ≡ key) ⊎ (at p ≡ 0)
  unfolding probe
  probe-stop zero i h = cc
  probe-stop (suc fuel) i {p} h = ground (arith, probe-stop fuel (bit_and (i + 1) mask) {p = p})

  -- A write to an empty slot is not seen by a probe that stopped elsewhere.
  pub probe-update_ne :
      (p v : ℕ)
      → at p ≡ 0
      → key ≢ 0
      → (fuel i : ℕ) {j : ℕ} → probe at mask key fuel i ≡ some j
      → p ≢ j
      → probe (update at p v) mask key fuel i ≡ some j
  unfolding probe
  probe-update_ne p v empty k zero i h ne = cc
  probe-update_ne p v empty k (suc fuel) i {j} h ne =
      ground (arith, probe-update_ne p v empty k fuel (bit_and (i + 1) mask) {j = j})

  -- The probe that stopped at an empty slot stops there again once its key is written.
  pub probe-update_self :
      (p : ℕ)
      → at p ≡ 0
      → key ≢ 0
      → (fuel i : ℕ) → probe at mask key fuel i ≡ some p
      → probe (update at p key) mask key fuel i ≡ some p
  unfolding probe
  probe-update_self p empty k zero i h = cc
  probe-update_self p empty k (suc fuel) i h =
      ground (arith, probe-update_self p empty k fuel (bit_and (i + 1) mask))

-- `(i + 1) & mask` on a table of `2 ^ k` slots
pub next_slot :
    (k i : ℕ) → i < 2 ^ k → bit_and (i + 1) (2 ^ k - 1) ≡ (if i + 1 == 2 ^ k then 0 else i + 1)
next_slot k i h = elim (Bool-cases (i + 1 == 2 ^ k)) [
  | inl e ↦ rw (bit_and_low, e, (==_iff _ _).0 e) (mod_self (2 ^ k))
  | inr e ↦ rw (bit_and_low, e) (mod-eq_of_lt (ground arith))
]

-- slots from `i` on to `e`, going round
abbrev dist : ℕ → ℕ → ℕ → ℕ
dist cap i e = if leb i e then e - i else e + cap - i

-- An empty slot `e` ends the loop: it stops inside the table within `dist` more slots.
pub probe_ends :
    (at : ℕ → ℕ) (k key e : ℕ)
    → e < 2 ^ k
    → at e ≡ 0
    → (fuel i : ℕ) → i < 2 ^ k
    → dist (2 ^ k) i e < fuel
    → (p : ℕ) × (probe at (2 ^ k - 1) key fuel i ≡ some p) × (p < 2 ^ k)
unfolding probe
probe_ends at k key e he empty zero i hi d = absurd (omega arith)
probe_ends at k key e he empty (suc fuel) i hi d = elim (Bool-cases (at i == key)) [
  | inl hit ↦ (i, rw hit refl, hi)
  | inr miss ↦ elim (Bool-cases (at i == 0)) [
    | inl free ↦ (i, rw (miss, free) refl, hi)
    | inr full ↦
        let moved : i ≢ e = λ same. ground arith in
        let (p, run, lt) =
          probe_ends at k key e he empty fuel (bit_and (i + 1) (2 ^ k - 1))
            (ground (arith, next_slot k i)) (ground (arith, next_slot k i)) in
        (p, rw (miss, full) run, lt)
  ]
]
