-- ===== src/Probe/Table.antt =====
-- A table of `2 ^ k` slots in which every probe ends, and ends at the key where the key is there.
use real_time_policy_authori.Common.{
  ℕ, ◌+◌, ◌-◌, ◌^◌, ◌<◌, ◌≡◌, ◌≢◌, ◌↔◌, ◌⊎◌, inl, inr, sym, ap, subst, ◌∙◌, some, ==_refl, arith,
  bit_and, ◌==◌, Bool-cases, ==_iff,
}
use real_time_policy_authori.Common.Bits.{bit_and_low}
use real_time_policy_authori.Probe.Loop.{
  probe, update, probe-update_ne, probe-update_self, probe_ends,
}
use real_time_policy_authori.Probe.Count.{occupied, free_slot, occupied-update, occupied-empty}
use native.Mathlib.Nat.{mod-lt, one-le-pow}

-- where the probe for `key` starts, and where it stops
abbrev pub home : (ℕ → ℕ) → ℕ → ℕ → ℕ
home hash k key = bit_and (hash key) (2 ^ k - 1)

module _ (hash at : ℕ → ℕ) (k : ℕ) where
  abbrev pub Stops : ℕ → ℕ → Type 0
  Stops key p = probe at (2 ^ k - 1) key (2 ^ k) (home hash k key) ≡ some p

  -- the key stands in some slot
  abbrev pub Present : ℕ → Type 0
  Present key = (j : ℕ) × (j < 2 ^ k) × (at j ≡ key)

  pub record IsTable (size : ℕ) : Type 0 where
    pub placed : (j : ℕ) → j < 2 ^ k → at j ≢ 0 → Stops (at j) j
    pub counted : size ≡ occupied at (2 ^ k)
    pub room : size < 2 ^ k

home-lt : (hash : ℕ → ℕ) (k key : ℕ) → home hash k key < 2 ^ k
home-lt hash k key =
    rw (bit_and_low k (hash key)) (mod-lt (hash key) (one-le-pow k 2 (omega arith)))

pub empty-IsTable : (hash at : ℕ → ℕ) (k : ℕ) → ((j : ℕ) → at j ≡ 0) → IsTable hash at k 0
empty-IsTable hash at k h = record {
  placed = λ j lt full. absurd (full (h j));
  counted = sym (occupied-empty at (2 ^ k) h);
  room = one-le-pow k 2 (omega arith);
}

module _ {hash at : ℕ → ℕ} {k size : ℕ} (t : IsTable hash at k size) where
  -- every probe ends, within as many slots as there are
  pub stops : (key : ℕ) → (p : ℕ) × Stops hash at k key p × (p < 2 ^ k)
  stops key =
      let (e, lt, empty) = free_slot at (2 ^ k) (omega (arith, t.counted, t.room)) in
      let start = home-lt hash k key in
      probe_ends at k key e lt empty (2 ^ k) (home hash k key) start (ground arith)

  -- it stops at the key exactly when the key stands anywhere
  pub Stops-Present :
      (key p : ℕ)
      → key ≢ 0
      → Stops hash at k key p
      → p < 2 ^ k
      → (at p ≡ key) ↔ Present hash at k key
  Stops-Present key p nz run lt = (
    (λ e. (p, lt, e)),
    (λ (j, hj, e).
        let here = subst (λ q. Stops hash at k q j) e (t.placed j hj (λ z. nz (sym e ∙ z))) in
        let same : p ≡ j = cc (sym run ∙ here) in ap at same ∙ e),
  )

  module _ (key p : ℕ) (nz : key ≢ 0) (run : Stops hash at k key p) (lt : p < 2 ^ k)
      (empty : at p ≡ 0) where
    pub update-Present :
        (q : ℕ) → q ≢ 0 → Present hash (update at p key) k q ↔ ((q ≡ key) ⊎ Present hash at k q)
    update-Present q hq = (
      (λ (j, hj, e). elim (Bool-cases (j == p)) [
        | inl here ↦ inl (sym (rw here at e))
        | inr other ↦ inr (j, hj, rw other at e)
      ]),
      elim [
        | inl same ↦ (p, lt, rw (==_refl p) (sym same))
        | inr present ↦ (present.0, present.1, ground (arith, present.2))
      ],
    )

    pub update-IsTable : size + 1 < 2 ^ k → IsTable hash (update at p key) k (size + 1)
    update-IsTable more = record {
      placed = λ j hj full. elim (Bool-cases (j == p)) [
        | inl here ↦
            rw (here, (==_iff j p).0 here)
              (probe-update_self at (2 ^ k - 1) key p empty nz (2 ^ k) (home hash k key) run)
        | inr other ↦
            let old : at j ≢ 0 = rw other at full in
            rw other (
              probe-update_ne at (2 ^ k - 1) (at j) p key empty old (2 ^ k) (home hash k (at j))
                (t.placed j hj old) (λ same. ground arith))
      ];
      counted = omega (arith, t.counted, occupied-update at p key (2 ^ k) lt empty nz);
      room = more;
    }
