-- ===== src/Probe/Count.antt =====
-- The number of occupied slots.
use real_time_policy_authori.Common.{
  ℕ, zero, suc, ◌+◌, ◌<◌, ◌≤◌, ◌≡◌, ◌≢◌, refl, arith, ◌==◌, if◌then◌else◌, Bool-cases, inl, inr,
  ==_iff,
}
use real_time_policy_authori.Probe.Loop.{update}

unfoldable pub occupied : (ℕ → ℕ) → ℕ → ℕ
occupied at zero = 0
occupied at (suc n) = occupied at n + (if at n == 0 then 0 else 1)

pub occupied-empty : (at : ℕ → ℕ) (n : ℕ) → ((j : ℕ) → at j ≡ 0) → occupied at n ≡ 0
unfolding occupied
occupied-empty at zero h = refl
occupied-empty at (suc n) h = ground (arith, occupied-empty at n h, h n)

-- Fewer keys than slots leave a slot empty.
pub free_slot : (at : ℕ → ℕ) (n : ℕ) → occupied at n < n → (e : ℕ) × (e < n) × (at e ≡ 0)
unfolding occupied
free_slot at zero h = absurd (omega arith)
free_slot at (suc n) h = elim (Bool-cases (at n == 0)) [
  | inl e ↦ (n, omega arith, (==_iff _ _).0 e)
  | inr e ↦ let (j, lt, empty) = free_slot at n (ground arith) in (j, omega arith, empty)
]

occupied-update_of_le :
    (at : ℕ → ℕ) (p v n : ℕ) → n ≤ p → occupied (update at p v) n ≡ occupied at n
unfolding occupied
occupied-update_of_le at p v zero h = refl
occupied-update_of_le at p v (suc n) h = ground (arith, occupied-update_of_le at p v n)

pub occupied-update :
    (at : ℕ → ℕ) (p v n : ℕ)
    → p < n
    → at p ≡ 0
    → v ≢ 0
    → occupied (update at p v) n ≡ occupied at n + 1
unfolding occupied
occupied-update at p v zero h empty nz = absurd (omega arith)
occupied-update at p v (suc n) h empty nz =
    ground (arith, occupied-update at p v n, occupied-update_of_le at p v n)

pub occupied_congr : (f g : ℕ → ℕ) (n : ℕ) → ((j : ℕ) → f j ≡ g j) → occupied f n ≡ occupied g n
unfolding occupied
occupied_congr f g zero h = refl
occupied_congr f g (suc n) h = ground (arith, occupied_congr f g n h, h n)

-- counting from the first slot on
pub occupied-suc :
    (at : ℕ → ℕ) (n : ℕ)
    → occupied at (suc n) ≡ (if at 0 == 0 then 0 else 1) + occupied (λ j. at (suc j)) n
unfolding occupied
occupied-suc at zero = omega arith
occupied-suc at (suc n) = omega (arith, occupied-suc at n)
